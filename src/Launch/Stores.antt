-- ===== src/Launch/Stores.antt =====
-- The capability stores of the cluster: storeCap, retrieveRaftNode and the registration in main.
use ww_webcrawler.Prelude.{
  ℕ, ◌^◌, ◌<◌, ◌≡◌, ◌↔◌, refl, ap, sym, ◌∙◌, Bool, true, false, ◌&&◌, String, Option, none, some,
  List, [], ◌∷◌, ◌++◌, Panics, done, panicked, ◌>>=◌, ◌==◌, ==_iff, Comparable, beq_self, ◌=?◌,
  if◌then◌else◌, Bool-cases, inl, inr, arith,
}
use ww_webcrawler.Sets.SyncMap.{load, store, load-store}
use ww_webcrawler.Launch.Hex.{Text, format_uint, parse-format_uint}
use ww_webcrawler.Launch.Args.{id_to_key}
use ww_webcrawler.Launch.Spawn.{dial_peers, fetch_cluster_sessions}

abbrev pub text_beq : Text → Text → Bool
text_beq [] [] = true
text_beq [] (d ∷ t) = false
text_beq (c ∷ s) [] = false
text_beq (c ∷ s) (d ∷ t) = c == d && text_beq s t

pub text_beq_iff : (s t : Text) → (text_beq s t ≡ true) ↔ (s ≡ t)
text_beq_iff [] [] = (λ e. refl, λ e. refl)
text_beq_iff [] (d ∷ t) = (λ e. cc, λ e. cc)
text_beq_iff (c ∷ s) [] = (λ e. cc, λ e. cc)
text_beq_iff (c ∷ s) (d ∷ t) =
    let (to, from) = text_beq_iff s t in (λ e. ground (arith, to), λ e. ground (arith, from))

instance abbrev pub text_comparable : Comparable Text
text_comparable = record { beq = text_beq; beq_iff = text_beq_iff; nil_value = [] }

-- The capability store of each session's node, by the node's number.
abbrev pub World : Type 0 → Type 0
World R = ℕ → List (Text × R)

module _ {R : Type 0} where
  -- A call of `Set` of a node's store. `took` says at which nodes such a call takes effect: nothing
  -- looks at what it returns.
  abbrev pub set_at : (took : ℕ → Bool) → ℕ → Text → R → World R → World R
  set_at took node key item w n = if n == node && took node then store key item (w n) else w n

  -- The loop of `storeCap`.
  unfoldable pub set_all : (took : ℕ → Bool) → List ℕ → Text → R → World R → World R
  set_all took [] key item w = w
  set_all took (node ∷ sessions) key item w =
      set_all took sessions key item (set_at took node key item w)

  -- `own` is the node of the crawler's own session, `sessions` those of Cluster.Sessions.
  unfoldable pub store_cap :
      (took : ℕ → Bool) → (own : ℕ) → (sessions : List ℕ) → Text → R → World R → World R
  unfolding set_all
  store_cap took own sessions key item w =
      set_all took sessions key item (set_at took own key item w)

  -- The registration in main of the crawler's Raft node; `peers` are the answers of DialPeer.
  unfoldable pub register_node :
      (took : ℕ → Bool)
      → (prefix : Text) → (id : ℕ) → R
      → (own : ℕ) → List (Option (ℕ × Bool))
      → World R
      → Panics (World R)
  unfolding fetch_cluster_sessions store_cap
  register_node took prefix id item own peers w = fetch_cluster_sessions peers >>= λ sessions.
      done (store_cap took own sessions (id_to_key prefix id) item w)

  -- The capability, none for the zero value, and the error; `node` is the crawler's own.
  unfoldable pub retrieve_raft_node :
      (prefix : Text) → (node : ℕ) → World R → (id : ℕ) → Option R × Option String
  retrieve_raft_node prefix node w id = (load (id_to_key prefix id) (w node), none)

append_cancel : (xs ys zs : Text) → xs ++ ys ≡ xs ++ zs → ys ≡ zs
append_cancel [] ys zs e = e
append_cancel (x ∷ xs) ys zs e = append_cancel xs ys zs (cc)

-- Different 64-bit identifiers have different keys.
id_to_key_injective :
    (prefix : Text) (i j : ℕ)
    → i < 2 ^ 64
    → j < 2 ^ 64
    → id_to_key prefix i ≡ id_to_key prefix j
    → i ≡ j
unfolding id_to_key
id_to_key_injective prefix i j h k e =
    let same : format_uint i ≡ format_uint j =
      cc (append_cancel prefix (b'-' ∷ format_uint i) (b'-' ∷ format_uint j) e) in
    cc (parse-format_uint i h, parse-format_uint j k)

key_beq :
    (prefix : Text) (i j : ℕ)
    → i < 2 ^ 64
    → j < 2 ^ 64
    → (id_to_key prefix i =? id_to_key prefix j) ≡ (i == j)
key_beq prefix i j h k = elim (Bool-cases (i == j)) [
  | inl same ↦ rw same (
      ap (λ n. id_to_key prefix i =? id_to_key prefix n) (sym ((==_iff i j).0 same))
      ∙ beq_self (id_to_key prefix i))
  | inr other ↦ elim (Bool-cases (id_to_key prefix i =? id_to_key prefix j)) [
    | inl equal ↦ cc (
        (==_iff i j).1 (
          id_to_key_injective prefix i j h k
            ((text_beq_iff (id_to_key prefix i) (id_to_key prefix j)).0 equal)))
    | inr apart ↦ apart ∙ sym other
  ]
]

fetched_nothing :
    {S : Type 0} (peers : List (Option (S × Bool))) {sessions : List S}
    → fetch_cluster_sessions peers ≡ done sessions
    → sessions ≡ []
unfolding fetch_cluster_sessions
fetched_nothing {S} peers {sessions} e = go (dial_peers peers []) e
  where
    go : (m : Panics (List S)) → (m >>= λ found. done []) ≡ done sessions → sessions ≡ []
    go (done found) h = cc
    go panicked h = cc

pub retrieve-register_node :
    {R : Type 0} (took : ℕ → Bool) (prefix : Text) (id : ℕ) (item : R) (own : ℕ)
    (peers : List (Option (ℕ × Bool))) (w w' : World R) (n j : ℕ)
    → id < 2 ^ 64
    → j < 2 ^ 64
    → register_node took prefix id item own peers w ≡ done w'
    → retrieve_raft_node prefix n w' j ≡ (
      (if (n == own && took own) && id == j then some item else load (id_to_key prefix j) (w n)),
      none,
    )
unfolding register_node store_cap set_all retrieve_raft_node
retrieve-register_node {R} took prefix id item own peers w w' n j small small' e =
    go (fetch_cluster_sessions peers) refl e
  where
    stored :
        (b : Bool)
        → (n == own && took own) ≡ b
        → load (id_to_key prefix j) (set_at took own (id_to_key prefix id) item w n) ≡ (
            if (n == own && took own) && id == j
            then some item
            else load (id_to_key prefix j) (w n))
    stored true here = rw here (
        load-store (id_to_key prefix id) (id_to_key prefix j) item (w n)
        ∙ rw (key_beq prefix id j small small') refl)
    stored false away = rw away refl

    go :
        (m : Panics (List ℕ))
        → fetch_cluster_sessions peers ≡ m
        → (m >>= λ sessions. done (store_cap took own sessions (id_to_key prefix id) item w))
          ≡ done w'
        → retrieve_raft_node prefix n w' j ≡ (
          (if (n == own && took own) && id == j
              then some item
              else load (id_to_key prefix j) (w n)),
          none,
        )
    go (done sessions) fetched h =
        let nothing : sessions ≡ [] = fetched_nothing peers fetched in
        let same : set_at took own (id_to_key prefix id) item w ≡ w' = cc (rw nothing at h) in
        ap (λ (v : World R). (load (id_to_key prefix j) (v n), none)) (sym same)
        ∙ ap (λ (r : Option R). (r, none)) (stored (n == own && took own) refl)
    go panicked fetched h = cc
