-- ===== src/Queues/Model/Fresh.antt =====
-- What a state with no entries stands for.
use mathlib.Core.Path.{subst}
use os_team.Base.{
  ℕ, zero, suc, ◌≡◌, refl, true, none, some, List, [], ◌∷◌, length, get_elem?, arith, if◌then◌else◌,
}
use os_team.Base.Chain.{Ptr, null, has, Chain, All}
use os_team.Queues.State.{Queue, Que, n_queues}
use os_team.Queues.Model.{View, Owner, Models}

abbrev pub IsClear : Queue → Type 0
IsClear q = (q.head ≡ null) × (q.tail ≡ null) × (q.count ≡ 0)

-- No entries, and the ordering functions that the queues have.
abbrev pub fresh_view : Que → (room : ℕ) → View
fresh_view s room = record {
  room = room;
  items = λ _. [];
  order = λ i. elim (get_elem? s.queues i) [ none ↦ null | some q ↦ q.compare ];
}

pool_owner : List Ptr → Owner
pool_owner free a = if has a free then 1 else 0

All-pool_owner :
    (free xs : List Ptr)
    → ((a : Ptr) → has a xs ≡ true → has a free ≡ true)
    → All (λ a. pool_owner free a ≡ 1) xs
unfolding pool_owner
All-pool_owner free [] h = tt
All-pool_owner free (x ∷ xs) h =
    (ground (arith, h x), All-pool_owner free xs (λ a e. h a (ground arith)))

get-All :
    (P : Queue → Type 0) (xs : List Queue)
    → All P xs
    → (i : ℕ) (q : Queue) → get_elem? xs i ≡ some q
    → P q
get-All P [] h i q e = cc
get-All P (x ∷ xs) h zero q e = let same : x ≡ q = cc in subst P same h.0
get-All P (x ∷ xs) h (suc i) q e = get-All P xs h.1 i q e

pub fresh-Models :
    (s : Que) (free : List Ptr)
    → length s.queues ≡ n_queues
    → All IsClear s.queues
    → Chain s.next_of s.free_qnodes free
    → Models s (fresh_view s (length free))
fresh-Models s free size clear pool = record {
  own = pool_owner free;
  free = free;
  nodes = λ _. [];
  pool = pool;
  pool_owned = All-pool_owner free free (λ a e. e);
  room = refl;
  n_queues = size;
  queue = λ i q e.
      (let c = get-All IsClear s.queues clear i q e in
        record { chain = c.0; owned = tt; tail = c.1; count = c.2 });
  items = λ i q e. refl;
  order = λ i q e. ground arith;
}
