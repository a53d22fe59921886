-- ===== src/Launch/Lead.antt =====
-- The loop of startRaftNode in crawler/crawler.go that waits until the coordinator's node leads.
use ww_webcrawler.Prelude.{
  ℕ, zero, suc, ◌+◌, ◌<◌, ◌≤◌, ◌≡◌, refl, ap, ◌∙◌, true, false, ◌==◌, ==_iff, Bool-cases, inl, inr,
  Option, none, some, if◌then◌else◌, arith,
}

-- `lead n` is the leader in the node's status at the `n`-th look. The loop takes at most `looks` more
-- looks, the first of them number `n`; it gives the number of the look that ends it, or none where it
-- still waits.
unfoldable pub wait_for_lead : (looks : ℕ) → (lead : ℕ → ℕ) → (id n : ℕ) → Option ℕ
wait_for_lead zero lead id n = none
wait_for_lead (suc looks) lead id n =
    let rest = wait_for_lead looks lead id (n + 1) in if lead n == id then some n else rest

-- A look at which the node leads ends the loop, as one of any number of looks that reaches it.
found_here :
    (lead : ℕ → ℕ) (id n looks : ℕ)
    → (lead n == id) ≡ true
    → n < n + looks
    → wait_for_lead looks lead id n ≡ some n
unfolding wait_for_lead
found_here lead id n zero same enough = absurd (omega arith)
found_here lead id n (suc looks) same enough = rw same refl

found_later :
    (lead : ℕ → ℕ) (id n look looks : ℕ)
    → (lead n == id) ≡ false
    → n < look
    → ((looks : ℕ) → look < n + 1 + looks → wait_for_lead looks lead id (n + 1) ≡ some look)
    → look < n + looks
    → wait_for_lead looks lead id n ≡ some look
unfolding wait_for_lead
found_later lead id n look zero other low found enough = absurd (omega arith)
found_later lead id n look (suc looks) other low found enough = rw other (found looks (omega arith))

-- What is said of the look that ends the loop, from look `n` on, where the node leads at look `k`.
record FirstLook (lead : ℕ → ℕ) (id n k look : ℕ) : Type 0 where
  starts : n ≤ look
  ends : look ≤ k
  leads : lead look ≡ id
  earlier : (m : ℕ) → n ≤ m → m < look → (lead m == id) ≡ false
  found : (looks : ℕ) → look < n + looks → wait_for_lead looks lead id n ≡ some look

here-FirstLook :
    (lead : ℕ → ℕ) (id n k : ℕ) → n ≤ k → (lead n == id) ≡ true → FirstLook lead id n k n
here-FirstLook lead id n k low same = record {
  starts = omega arith;
  ends = low;
  leads = (==_iff (lead n) id).0 same;
  earlier = λ m a b. absurd (omega arith);
  found = λ looks enough. found_here lead id n looks same enough;
}

later-FirstLook :
    (lead : ℕ → ℕ) (id n k look : ℕ)
    → (lead n == id) ≡ false
    → FirstLook lead id (n + 1) k look
    → FirstLook lead id n k look
later-FirstLook lead id n k look other r = record {
  starts = let h = r.starts in omega arith;
  ends = r.ends;
  leads = r.leads;
  earlier = λ m a b. elim (Bool-cases (m == n)) [
    | inl same ↦ ap (λ i. lead i == id) ((==_iff m n).0 same) ∙ other
    | inr apart ↦ r.earlier m (above m a apart) b
  ];
  found = λ looks enough.
      let h = r.starts in found_later lead id n look looks other (omega arith) r.found enough;
}
  where
    above : (m : ℕ) → n ≤ m → (m == n) ≡ false → n + 1 ≤ m
    above m a apart = ground arith

-- By the number of looks before one at which the node leads.
from-FirstLook :
    (d : ℕ) (lead : ℕ → ℕ) (id n k : ℕ)
    → d + n ≡ k
    → lead k ≡ id
    → (look : ℕ) × FirstLook lead id n k look
from-FirstLook zero lead id n k at h =
    let here : n ≡ k = omega arith in
    (n, here-FirstLook lead id n k (omega arith) ((==_iff (lead n) id).1 (ap lead here ∙ h)))
from-FirstLook (suc d) lead id n k at h = elim (Bool-cases (lead n == id)) [
  | inl same ↦ (n, here-FirstLook lead id n k (omega arith) same)
  | inr other ↦
      let (look, r) = from-FirstLook d lead id (n + 1) k (omega arith) h in
      (look, later-FirstLook lead id n k look other r)
]

-- The loop of a coordinator whose node leads at some look `k` ends: at the first look at which the
-- node leads, which is `k` or an earlier one, and with any number of looks that reaches it.
pub wait_for_lead_lem :
    (lead : ℕ → ℕ) (id k : ℕ)
    → lead k ≡ id
    → (look : ℕ) × (look ≤ k)
      × (lead look ≡ id)
      × ((m : ℕ) → m < look → (lead m == id) ≡ false)
      × ((looks : ℕ) → look < looks → wait_for_lead looks lead id 0 ≡ some look)
wait_for_lead_lem lead id k h =
    let (look, r) = from-FirstLook k lead id 0 k (omega arith) h in
    (
      look,
      r.ends,
      r.leads,
      λ m b. r.earlier m (omega arith) b,
      λ looks enough. r.found looks (omega arith),
    )
