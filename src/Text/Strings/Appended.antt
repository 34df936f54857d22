-- ===== src/Text/Strings/Appended.antt =====
-- strcpy and strcat on strings in memory.
use mathlib.Core.Path.{subst}
use os_team.Base.{
  ℕ, zero, suc, ◌+◌, ◌≤◌, ◌<◌, ◌≡◌, ◌≢◌, ◌⊎◌, refl, ap, ◌∙◌, true, false, ◌==◌, List, [], ◌∷◌, ◌++◌,
  Option, some, length, arith, inl,
}
use os_team.Base.Chain.{Ptr, update}
use os_team.Text.Memory.{Memory}
use os_team.Text.Words.{strlen}
use os_team.Text.Strings.{strcpy, strcat}

-- The characters, none of them a NUL, and a NUL behind them.
abbrev pub StringAt : Memory → Ptr → List ℕ → Type 0
StringAt m p [] = m p ≡ 0
StringAt m p (c ∷ cs) = (m p ≡ c) × (c ≢ 0) × StringAt m (p + 1) cs

-- Nothing else changed.
abbrev pub OnlyAt : (p : Ptr) (len : ℕ) (m m' : Memory) → Type 0
OnlyAt p len m m' = (a : Ptr) → (a < p) ⊎ (p + len < a) → m' a ≡ m a

-- A memory that is the same from `p` on, for as long as the string is, has it too.
kept :
    (m m' : Memory) (p : Ptr) (cs : List ℕ)
    → ((a : Ptr) → p ≤ a → a ≤ p + length cs → m' a ≡ m a)
    → StringAt m p cs
    → StringAt m' p cs
kept m m' p [] same h = same p (omega arith) (omega arith) ∙ h
kept m m' p (c ∷ cs) same (e, nz, h) = (
  same p (omega arith) (omega arith) ∙ e,
  nz,
  kept m m' (p + 1) cs (λ a low high. same a (omega arith) (omega arith)) h,
)

-- What a string is copied to.
pub Copied : (dst : Ptr) (cs : List ℕ) (m : Memory) → Option Memory → Type 0
Copied dst cs m result =
    (m' : Memory) × (result ≡ some m') × StringAt m' dst cs × OnlyAt dst (length cs) m m'

strcpy-Copied :
    (fuel : ℕ) (m : Memory) (dst src : Ptr) (cs : List ℕ)
    → StringAt m src cs
    → (dst ≤ src) ⊎ (src + length cs < dst)
    → length cs < fuel
    → Copied dst cs m (strcpy fuel m dst src)
unfolding strcpy Copied
strcpy-Copied zero m dst src cs h apart enough = absurd (omega arith)
strcpy-Copied (suc fuel) m dst src [] h apart enough =
    let ended : (m src == 0) ≡ true = ground (arith, h) in
    rw ended (update m dst (m src), refl, ground (arith, h), λ a away. ground (arith, away))
strcpy-Copied (suc fuel) m dst src (c ∷ cs) (e, nz, h) apart enough =
    let goes_on : (m src == 0) ≡ false = ground (arith, e, nz) in
    let stored = update m dst (m src) in
    let source : StringAt stored (src + 1) cs =
      kept m stored (src + 1) cs (λ a low high. ground (arith, apart)) h in
    let (m', e', h', only) =
      strcpy-Copied fuel stored (dst + 1) (src + 1) cs source (ground (arith, apart))
        (omega arith) in
    let first : m' dst ≡ c = only dst (inl (omega arith)) ∙ ground (arith, e) in
    rw goes_on
      (m', e', (first, nz, h'), λ a away. only a (ground (arith, away)) ∙ ground (arith, away))

strlen-StringAt :
    (fuel : ℕ) (m : Memory) (p : Ptr) (cs : List ℕ)
    → StringAt m p cs
    → length cs < fuel
    → strlen fuel m p ≡ some (length cs)
unfolding strlen
strlen-StringAt zero m p cs h enough = absurd (omega arith)
strlen-StringAt (suc fuel) m p [] h enough = ground (arith, h)
strlen-StringAt (suc fuel) m p (c ∷ cs) (e, nz, h) enough =
    let goes_on : (m p == 0) ≡ false = ground (arith, e, nz) in
    let next : length cs + 1 ≡ suc (length cs) = omega arith in
    rw (goes_on, strlen-StringAt fuel m (p + 1) cs h (omega arith)) (ap some next)

-- A string in front of another, in place of its NUL.
joined :
    (m m' : Memory) (p : Ptr) (cs ds : List ℕ)
    → StringAt m p cs
    → StringAt m' (p + length cs) ds
    → ((a : Ptr) → p ≤ a → a < p + length cs → m' a ≡ m a)
    → StringAt m' p (cs ++ ds)
joined m m' p [] ds h at same = subst (λ q. StringAt m' q ds) (omega arith) at
joined m m' p (c ∷ cs) ds (e, nz, h) at same = (
  same p (omega arith) (omega arith) ∙ e,
  nz,
  joined m m' (p + 1) cs ds h (subst (λ q. StringAt m' q ds) (omega arith) at)
      (λ a low high. same a (omega arith) (omega arith)),
)

-- `strcat` of a string behind another ends, when it has room in front of the source or behind it: the
-- destination then holds the one string and the other behind it, and no other byte has changed.
pub strcat-Appended :
    (fuel : ℕ) (m : Memory) (dst src : Ptr) (cs ds : List ℕ)
    → StringAt m dst cs
    → StringAt m src ds
    → (dst + length cs ≤ src) ⊎ (src + length ds < dst + length cs)
    → length cs < fuel
    → length ds < fuel
    → (m' : Memory) × (strcat fuel m dst src ≡ some m')
      × StringAt m' dst (cs ++ ds)
      × OnlyAt (dst + length cs) (length ds) m m'
unfolding strcat Copied
strcat-Appended fuel m dst src cs ds front source apart enough room =
    let (m', e, copy, only) = strcpy-Copied fuel m (dst + length cs) src ds source apart room in
    let behind : strcat fuel m dst src ≡ strcpy fuel m (dst + length cs) src =
      rw (strlen-StringAt fuel m dst cs front enough, strcat) refl in
    (m', behind ∙ e, joined m m' dst cs ds front copy (λ a low high. only a (inl high)), only)
