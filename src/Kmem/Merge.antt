-- ===== src/Kmem/Merge.antt =====
-- Two blocks of the free list that touch, and the macro `adjacent`.
use os_team.Base.{
  ℕ, ◌+◌, ◌%◌, ◌^◌, ◌≤◌, ◌≡◌, ◌≢◌, refl, ap, inl, inr, Bool, true, false, ◌||◌, List, [], ◌∷◌, ◌++◌,
  arith, Bool-cases, eq_of_==,
}
use os_team.Base.Chain.{Ptr, null, update, has, Chain}
use os_team.Base.Chain.Write.{has-append, Chain-update}
use os_team.Kmem.State.{Km, p2b, adjacent}
use os_team.Kmem.Blocks.{
  top, end, Spaced, between, covers, total, Agree, covers-append, total-append, covers-Agree,
  total-Agree, Spaced-Agree, covers-low, prefix_below, Spaced-suffix, Spaced-prefix, Spaced-swap,
  Agree-update, has-covers,
}

-- One write takes a node out of a chain.
pub Chain-skip :
    (next : Ptr → Ptr) (p : Ptr) (front : List Ptr) (u c : Ptr) (rest : List Ptr)
    → Chain next p (front ++ u ∷ c ∷ rest)
    → Chain (update next u (next c)) p (front ++ u ∷ rest)
Chain-skip next p [] u c rest h =
    let now : update next u (next c) u ≡ next c = ground arith in
    let out : has u rest ≡ false = ground (arith, h.2) in
    (h.0, h.1, out, rw now (Chain-update next u (next c) (next c) rest out h.3.3))
Chain-skip next p (x ∷ front) u c rest h =
    let same : update next u (next c) x ≡ next x =
      ground (arith, h.2, has-append x front (u ∷ c ∷ rest)) in
    let out : has x (front ++ u ∷ rest) ≡ false =
      ground (arith, h.2, has-append x front (u ∷ c ∷ rest), has-append x front (u ∷ rest)) in
    (h.0, h.1, out, rw same (Chain-skip next (next x) front u c rest h.3))

-- The macro `adjacent` says that the first block ends where the second begins.
pub adjacent-end :
    (k : Km) (p q : Ptr)
    → p ≢ null
    → q ≢ null
    → end k.pages_of p ≤ top
    → adjacent k p q ≡ true
    → end k.pages_of p ≡ q
adjacent-end k p q p_ne q_ne fits h =
    omega (arith, eq_of_== ((p + p2b (k.pages_of p)) % 2 ^ 32) q h, fits, q_ne, p_ne)

or_assoc : (a b c : Bool) → ((a || b) || c) ≡ (a || (b || c))
or_assoc true b c = refl
or_assoc false b c = refl

module _ (g : Ptr → ℕ) (front : List Ptr) (p q : Ptr) (rest : List Ptr)
    (s : Spaced g (front ++ p ∷ q ∷ rest)) (touch : end g p ≡ q) where
  abbrev pub joined : Ptr → ℕ
  joined = update g p (g p + g q)

  behind : Spaced g (p ∷ q ∷ rest)
  behind = Spaced-suffix g front (p ∷ q ∷ rest) s

  out_front : has p front ≡ false
  out_front =
      has-covers g p front (Spaced-prefix g front (p ∷ q ∷ rest) s)
        (elim (Bool-cases (covers g front p)) [
          | inl in' ↦ absurd (omega (arith, prefix_below g front (p ∷ q ∷ rest) p s in'))
          | inr out ↦ out
        ])

  out_rest : has p rest ≡ false
  out_rest = has-covers g p rest behind.2.2 (elim (Bool-cases (covers g rest p)) [
    | inl in' ↦ absurd (
        omega
          (arith, covers-low g rest p behind.2.2 in', behind.0, behind.1, behind.2.0, behind.2.1))
    | inr out ↦ out
  ])

  Agree-front : Agree joined g front
  Agree-front = Agree-update g p (g p + g q) front out_front

  Agree-rest : Agree joined g rest
  Agree-rest = Agree-update g p (g p + g q) rest out_rest

  now : joined p ≡ g p + g q
  now = ground arith

  joined-end : end joined p ≡ end g q
  joined-end = omega (arith, now, touch)

  pub joined-Spaced : Spaced joined (front ++ p ∷ rest)
  joined-Spaced = Spaced-swap joined g front (p ∷ q ∷ rest) (p ∷ rest) Agree-front s (omega arith) (
    omega (arith, now, behind.0),
    omega (arith, joined-end, behind.2.1),
    Spaced-Agree joined g rest Agree-rest behind.2.2,
  )

  pub joined-total : total joined (front ++ p ∷ rest) ≡ total g (front ++ p ∷ q ∷ rest)
  joined-total = omega (
    arith,
    now,
    total-append joined front (p ∷ rest),
    total-append g front (p ∷ q ∷ rest),
    total-Agree joined g front Agree-front,
    total-Agree joined g rest Agree-rest,
  )

  pub joined-covers :
      (a : ℕ) → covers joined (front ++ p ∷ rest) a ≡ covers g (front ++ p ∷ q ∷ rest) a
  joined-covers a =
      rw
        (
          covers-append joined front (p ∷ rest) a,
          covers-append g front (p ∷ q ∷ rest) a,
          covers-Agree joined g front a Agree-front,
          covers-Agree joined g rest a Agree-rest,
          joined-end,
        )
        (rw piece (
          ap (λ b. covers g front a || b)
            (or_assoc (between p (end g p) a) (between q (end g q) a) (covers g rest a))))
    where
      piece : between p (end g q) a ≡ (between p (end g p) a || between q (end g q) a)
      piece = ground (arith, touch, behind.0, behind.2.0)
