-- ===== src/Launch/Join.antt =====
-- The Raft side of a crawler's start in crawler/crawler.go: startRaftNode and join.
use ww_webcrawler.Prelude.{
  ℕ, ◌≡◌, refl, ap, sym, ◌∙◌, String, Option, none, some, List, [], ◌∷◌, ◌++◌, map, append_assoc,
  append-nil, Panics, done, panicked, ◌>>=◌, Result, ok, err, if◌then◌else◌, load_at,
}
use ww_webcrawler.Launch.Hex.{Text}
use ww_webcrawler.Launch.Args.{is_coordinator, parse_uint64, raft_link, id_to_key}
use ww_webcrawler.Launch.Args.Place
use ww_webcrawler.Launch.Spawn.{spawn_crawlers}
use ww_webcrawler.Launch.Lead.{wait_for_lead}

-- The coordinator's reply to `Add`: its error text, where it has one, and the nodes that it knows.
-- Its readers of pointers can fail, with the error's text.
pub record AddReply (R : Type 0) : Type 0 where
  pub error : Option (Result String String)
  pub nodes : Result String (List (Result String R))

module _ {R : Type 0} where
  -- The loop over the nodes: the error, and the peers that are added.
  unfoldable pub add_peers : List (Result String R) → List R → Option String × List R
  add_peers [] peers = (none, peers)
  add_peers (err e ∷ nodes) peers = (some e, peers)
  add_peers (ok peer ∷ nodes) peers = add_peers nodes (peers ++ peer ∷ [])

  abbrev pub add_all : Result String (List (Result String R)) → Option String × List R
  add_all (err e) = (some e, [])
  add_all (ok nodes) = add_peers nodes []

  abbrev pub with_error :
      Option (Result String String) → Option String × List R → Option String × List R
  with_error none rest = rest
  with_error (some (err e)) rest = (some e, [])
  with_error (some (ok text)) rest = (some text, [])

  -- What `join` makes of what the call of `Add` gives.
  unfoldable pub read_reply : Result String (AddReply R) → Option String × List R
  unfolding add_peers
  read_reply (err e) = (some e, [])
  read_reply (ok r) = with_error r.error (add_all r.nodes)

  abbrev call_add : Result String R → (R → Result String (AddReply R)) → Result String (AddReply R)
  call_add (err e) add = err e
  call_add (ok coord) add = add coord

  -- `get` is CapStore.Get, and `add` the call of a Raft capability.
  unfoldable pub join :
      List Text
      → (prefix : Text) → (get : Text → Result String R) → (add : R → Result String (AddReply R))
      → Panics (Option String × List R)
  unfolding read_reply
  join args prefix get add =
      raft_link args >>= λ id. done (read_reply (call_add (get (id_to_key prefix id)) add))

  -- The processes that startRaftNode starts, with their sessions and arguments, and the peers that it
  -- adds. A coordinator starts them when its node leads, and none is where it still waits.
  unfoldable pub start_raft_node :
      {S : Type 0}
      → (looks : ℕ) → (lead : ℕ → ℕ) → List Text
      → (prefix : Text) → (id : ℕ) → (sessions : List S) → (own : S)
      → (get : Text → Result String R) → (add : R → Result String (AddReply R))
      → Panics (Option (List (Option S × List Text) × List R))
  unfolding join
  start_raft_node looks lead args prefix id sessions own get add =
      if is_coordinator args
      then (elim (wait_for_lead looks lead id 0) [
        | none ↦ done none
        | some look ↦ load_at args Place.nodes >>= λ text.
            parse_uint64 text 10 >>= λ n. done (some (spawn_crawlers sessions own args id n, []))
      ])
      else (join args prefix get add >>= λ r. elim r.0 [
        | some e ↦ panicked
        | none ↦ done (some ([], r.1))
      ])

  add_peers-none :
      (nodes : List (Result String R)) (peers added : List R)
      → add_peers nodes peers ≡ (none, added)
      → (rest : List R) × (nodes ≡ map ok rest) × (added ≡ peers ++ rest)
  unfolding add_peers
  add_peers-none [] peers added e = ([], refl, cc (append-nil peers))
  add_peers-none (err x ∷ nodes) peers added e = cc
  add_peers-none (ok peer ∷ nodes) peers added e =
      let (rest, h, k) = add_peers-none nodes (peers ++ peer ∷ []) added e in
      (peer ∷ rest, ap (◌∷◌ (ok peer)) h, k ∙ append_assoc peers (peer ∷ []) rest)

  read_reply-none :
      (call : Result String (AddReply R)) (added : List R)
      → read_reply call ≡ (none, added)
      → (r : AddReply R) × (call ≡ ok r) × (r.error ≡ none) × (r.nodes ≡ ok (map ok added))
  unfolding read_reply
  read_reply-none (err e) added h = cc
  read_reply-none (ok r) added h = let (clear, all) = first r.error refl h in (r, refl, clear, all)
    where
      second :
          (nodes : Result String (List (Result String R)))
          → r.nodes ≡ nodes
          → add_all nodes ≡ (none, added)
          → r.nodes ≡ ok (map ok added)
      second (err e) known k = cc
      second (ok nodes) known k =
          let (rest, all, same) = add_peers-none nodes [] added k in
          known ∙ ap (λ l. ok l) (all ∙ ap (map (λ peer. ok peer)) (sym same))

      first :
          (error : Option (Result String String))
          → r.error ≡ error
          → with_error error (add_all r.nodes) ≡ (none, added)
          → (r.error ≡ none) × (r.nodes ≡ ok (map ok added))
      first none known k = (known, second r.nodes refl k)
      first (some (err e)) known k = cc
      first (some (ok text)) known k = cc

  -- A `join` that returns no error found a readable identifier, the coordinator's capability under
  -- its key, and a reply without an error text, whose nodes could all be read: these are the peers
  -- that it has added, in order.
  pub join_added :
      (args : List Text) (prefix : Text) (get : Text → Result String R)
      (add : R → Result String (AddReply R)) (added : List R)
      → join args prefix get add ≡ done (none, added)
      → (id : ℕ) × (coord : R) × (r : AddReply R) × (raft_link args ≡ done id)
        × (get (id_to_key prefix id) ≡ ok coord)
        × (add coord ≡ ok r)
        × (r.error ≡ none)
        × (r.nodes ≡ ok (map ok added))
  unfolding join
  join_added args prefix get add added e = linked (raft_link args) refl e
    where
      called :
          (id : ℕ) (c : Result String R)
          → get (id_to_key prefix id) ≡ c
          → read_reply (call_add c add) ≡ (none, added)
          → (coord : R) × (r : AddReply R) × (get (id_to_key prefix id) ≡ ok coord)
            × (add coord ≡ ok r)
            × (r.error ≡ none)
            × (r.nodes ≡ ok (map ok added))
      called id (err x) found h = let (r, bad, clear, all) = read_reply-none (err x) added h in cc
      called id (ok coord) found h =
          let (r, good, clear, all) = read_reply-none (add coord) added h in
          (coord, r, found, good, clear, all)

      linked :
          (m : Panics ℕ)
          → raft_link args ≡ m
          → (m >>= λ id. done (read_reply (call_add (get (id_to_key prefix id)) add)))
            ≡ done (none, added)
          → (id : ℕ) × (coord : R) × (r : AddReply R) × (raft_link args ≡ done id)
            × (get (id_to_key prefix id) ≡ ok coord)
            × (add coord ≡ ok r)
            × (r.error ≡ none)
            × (r.nodes ≡ ok (map ok added))
      linked (done id) known h =
          let (coord, r, found, good, clear, all) =
            called id (get (id_to_key prefix id)) refl (cc) in
          (id, coord, r, known, found, good, clear, all)
      linked panicked known h = cc
