-- ===== src/Launch/Main/Worker.antt =====
-- How a process that the coordinator has spawned finds it, and what it starts with.
use mathlib.Core.Bool.{false≢true}
use ww_webcrawler.Prelude.{
  ℕ, Panics, ok, err, ◌++◌, append-nil, append_assoc, ◌^◌, ◌<◌, ◌≡◌, refl, ap, sym, ◌∙◌, Bool, true,
  false, Option, none, some, String, List, [], ◌∷◌, map, done, panicked, ◌>>=◌, Result, ◌==◌,
  ==_iff, ltb, length, load_at, arith,
}
use ww_webcrawler.Sets.SyncMap.{load}
use ww_webcrawler.Launch.Hex.{Text}
use ww_webcrawler.Launch.Args.{
  coord_args, is_coordinator, has_db_args, db_enabled, id_to_key, too_long-is_coordinator,
}
use ww_webcrawler.Launch.Args.Place
use ww_webcrawler.Crawler.State.{new_urls, Crawler, Env}
use ww_webcrawler.Crawler.Pool.{start_pool, max_pool_size}
use ww_webcrawler.Crawler.System.{System, no_system, SystemSteps, next, starts}
use ww_webcrawler.Launch.Main.{
  new_crawler, first_url, Surroundings, Started, crawls, start_crawler, crawl_on, run_main,
}
use ww_webcrawler.Launch.Main.Coordinator.{coordinator_args, fetch_all}
use ww_webcrawler.Launch.Spawn.{spawned_args, spawned_args-Worker}
use ww_webcrawler.Launch.Stores.{
  World, store_cap, text_comparable, register_node, retrieve_raft_node, retrieve-register_node,
}
use ww_webcrawler.Launch.Join.{
  AddReply, add_peers, add_all, with_error, read_reply, join, start_raft_node,
}

itself : (n : ℕ) → (n == n) ≡ true
itself n = (==_iff n n).1 refl

-- The peers of a reply, none where it makes an error: where the call or a reader of a pointer fails,
-- or where the reply has an error's text.
abbrev all_peers : {R : Type 0} → List (Result String R) → Option (List R)
all_peers [] = some []
all_peers (err e ∷ nodes) = none
all_peers (ok peer ∷ nodes) = elim (all_peers nodes) [
  | none ↦ none
  | some rest ↦ some (peer ∷ rest)
]

abbrev readable_peers :
    {R : Type 0}
    → Option (Result String String)
    → Result String (List (Result String R))
    → Option (List R)
readable_peers (some text) nodes = none
readable_peers none (err e) = none
readable_peers none (ok nodes) = all_peers nodes

abbrev pub peers_of : {R : Type 0} → Result String (AddReply R) → Option (List R)
peers_of (err e) = none
peers_of (ok r) = readable_peers r.error r.nodes

-- What `join` reads in a reply, as startRaftNode takes it.
abbrev joined_with : {A R : Type 0} → (List R → A) → Option String × List R → Panics A
joined_with f (some e, added) = panicked
joined_with f (none, added) = done (f added)

abbrev when_some : {A R : Type 0} → (List R → A) → Option (List R) → Panics A
when_some f none = panicked
when_some f (some added) = done (f added)

-- The result of startRaftNode where it only joins.
abbrev none_spawned : {S R : Type 0} → List R → Option (List (Option S × List Text) × List R)
none_spawned known = some ([], known)

as_joined :
    {A R : Type 0} (f : List R → A) (r : Option String × List R)
    → (elim r.0 [ some e ↦ panicked | none ↦ done (f r.1) ]) ≡ joined_with f r
as_joined f (some e, added) = refl
as_joined f (none, added) = refl

joined_all :
    {A R : Type 0} (f : List R → A) (nodes : List (Result String R)) (peers : List R)
    → joined_with f (add_peers nodes peers)
      ≡ when_some (λ rest. f (peers ++ rest)) (all_peers nodes)
unfolding add_peers
joined_all f [] peers = ap (λ l. done (f l)) (sym (append-nil peers))
joined_all f (err e ∷ nodes) peers = refl
joined_all {A} {R} f (ok peer ∷ nodes) peers =
    joined_all f nodes (peers ++ peer ∷ []) ∙ shifted (all_peers nodes)
  where
    shifted :
        (o : Option (List R))
        → when_some (λ rest. f ((peers ++ peer ∷ []) ++ rest)) o
          ≡ when_some
              (λ rest. f (peers ++ rest))
              (elim o [ none ↦ none | some rest ↦ some (peer ∷ rest) ])
    shifted none = refl
    shifted (some rest) = ap (λ l. done (f l)) (append_assoc peers (peer ∷ []) rest)

read_reply-peers_of :
    {A R : Type 0} (f : List R → A) (call : Result String (AddReply R))
    → joined_with f (read_reply call) ≡ when_some f (peers_of call)
unfolding read_reply
read_reply-peers_of f (err e) = refl
read_reply-peers_of {A} {R} f (ok r) = by_fields r.error r.nodes
  where
    by_fields :
        (error : Option (Result String String)) (nodes : Result String (List (Result String R)))
        → joined_with f (with_error error (add_all nodes))
          ≡ when_some f (readable_peers error nodes)
    by_fields none (err e) = refl
    by_fields none (ok nodes) = joined_all f nodes []
    by_fields (some (err e)) nodes = refl
    by_fields (some (ok text)) nodes = refl

-- A coordinator with a 64-bit identifier has registered its Raft node, its own store took the
-- capability, and a process that it has spawned starts on the coordinator's node, where the store
-- finds what it holds. The process calls `Add` of the coordinator's own capability; it panics
-- exactly if the reply makes an error, and otherwise spawns nothing and knows the peers of the reply.
worker_joins :
    {R S : Type 0} (took : ℕ → Bool) (args : List Text) (prefix : Text) (id id' : ℕ) (item : R)
    (own : ℕ) (peers : List (Option (ℕ × Bool))) (w w' : World R) (sessions : List S) (session : S)
    (get : Text → Result String R) (add : R → Result String (AddReply R)) (looks : ℕ) (lead : ℕ → ℕ)
    → is_coordinator args ≡ true
    → id < 2 ^ 64
    → took own ≡ true
    → register_node took prefix id item own peers w ≡ done w'
    → ((key : Text) (x : R) → load key (w' own) ≡ some x → get key ≡ ok x)
    → start_raft_node looks lead (spawned_args args id) prefix id' sessions session get add
      ≡ when_some none_spawned (peers_of (add item))
unfolding start_raft_node join load retrieve_raft_node
worker_joins {R} {S} took args prefix id id' item own peers w w' sessions session get add looks lead
      first small stored_own registered finds =
    let (follows, links, db, taken) = spawned_args-Worker args id first small in
    let stored : load (id_to_key prefix id) (w' own) ≡ some item =
      ap (λ r. r.0)
        (retrieve-register_node took prefix id item own peers w w' own id small small registered)
      ∙ rw (itself own, itself id, stored_own) refl in
    rw (follows, links)
      (rw (finds (id_to_key prefix id) item stored) (
        as_joined none_spawned (read_reply (add item))
        ∙ read_reply-peers_of none_spawned (add item)))

-- What the arguments of a spawned process hold.
worker_args :
    (args : List Text) (id : ℕ) (prefix : Text)
    → is_coordinator args ≡ true
    → load_at args Place.prefix ≡ done prefix
    → (key : Text) × (load_at (spawned_args args id) Place.http ≡ done key)
      × (load_at (spawned_args args id) Place.prefix ≡ done prefix)
      × (ltb (length (spawned_args args id)) coord_args ≡ false)
unfolding is_coordinator load_at spawned_args has_db_args
worker_args (a ∷ b ∷ c ∷ d ∷ []) id prefix h t = (a, refl, t, refl)
worker_args (a ∷ b ∷ c ∷ d ∷ e ∷ f ∷ g ∷ []) id prefix h t = (a, refl, t, refl)
worker_args (a ∷ b ∷ c ∷ d ∷ e ∷ f ∷ g ∷ x ∷ xs) id prefix h t = absurd (
    false≢true
      (sym (too_long-is_coordinator (a ∷ b ∷ c ∷ d ∷ e ∷ f ∷ g ∷ x ∷ xs) (omega arith)) ∙ h))
worker_args _ id prefix h t = absurd (false≢true h)

-- The crawler that a process builds.
abbrev pub built : (id : ℕ) → Bool → Crawler
built id writes = record {
  urls = new_urls;
  raft_id = id;
  sent = [];
  writes_db = writes;
  written = [];
}

-- What a process has made at its start whose `join` has added the peers `known`.
abbrev pub made_at_start :
    {R : Type 0} → Surroundings R → Text → World R → Bool → List R → Started R
made_at_start s prefix w writes known = record {
  pool = start_pool (built s.id writes) max_pool_size;
  stores = store_cap s.took s.own [] (id_to_key prefix s.id) s.cap w;
  spawned = [];
  known = known;
}

-- What main makes of the result of startRaftNode, where it puts no URL.
after_join :
    {R : Type 0} (string_of : Text → String) (worker : List Text) (stores : World R) (c : Crawler)
    (o : Option (List R))
    → is_coordinator worker ≡ false
    → (when_some none_spawned o >>= crawl_on string_of worker stores c) ≡ (elim o [
      | none ↦ panicked
      | some known ↦ done (
          crawls (record {
            pool = start_pool c max_pool_size;
            stores = stores;
            spawned = [];
            known = known;
          }))
    ])
unfolding crawl_on
after_join string_of worker stores c none follows = refl
after_join string_of worker stores c (some known) follows = rw (first_url, follows) refl

-- A coordinator with a 64-bit identifier has registered its Raft node, its own store took the
-- capability, and a process that it has spawned starts on the coordinator's node, where the store
-- finds what it holds. Where Bootstrap and the HTTP capability give no error and every peer answers
-- DialPeer, the process calls `Add` of the coordinator's own capability. It panics exactly if the
-- call fails, the reply has an error's text, or the text, the list of nodes or a node cannot be
-- read. Otherwise it spawns nothing, knows exactly the nodes of the reply, in order, and adds to any
-- state that processes reach over one log another process; it writes to the database exactly if the
-- coordinator does.
pub worker_starts :
    {R : Type 0} (string_of : Text → String) (took : ℕ → Bool) (args : List Text) (prefix : Text)
    (id : ℕ) (item : R) (peers : List (Option (ℕ × Bool))) (w w' : World R) (s : Surroundings R)
    (found found_later : List (ℕ × Bool)) (looks : ℕ) (env : Env) (system : System)
    → is_coordinator args ≡ true
    → load_at args Place.prefix ≡ done prefix
    → id < 2 ^ 64
    → took s.own ≡ true
    → register_node took prefix id item s.own peers w ≡ done w'
    → ((key : Text) (x : R) → load key (w' s.own) ≡ some x → s.get key ≡ ok x)
    → s.bootstrap ≡ none
    → ((key : Text) → s.http_cap key ≡ none)
    → s.peers ≡ map (λ p. some p) found
    → s.peers_later ≡ map (λ p. some p) found_later
    → SystemSteps env no_system system
    → (writes : Bool) × (db_enabled args ≡ done writes)
      × (run_main string_of (spawned_args args id) s w' looks ≡ (elim (peers_of (s.add item)) [
        | none ↦ panicked
        | some known ↦ done (crawls (made_at_start s prefix w' writes known))
      ]))
      × SystemSteps env no_system (record system {
        sites =
            record { pool = start_pool (built s.id writes) max_pool_size; applied = [] }
            ∷ system.sites;
      })
unfolding run_main start_crawler new_crawler register_node
worker_starts {R} string_of took args prefix id item peers w w' s found found_later looks env system
      first has_prefix small stored registered finds booted capable dialled dialled_later reached =
    let (key0, prefix0, writes, a, b, db, c) = coordinator_args args first in
    let (key, has_key, same_prefix, enough) = worker_args args id prefix first has_prefix in
    let (follows, links, same_db, taken) = spawned_args-Worker args id first small in
    (
      writes,
      db,
      rw (enough, booted, has_key, capable key, same_prefix, same_db, db)
          (rw (dialled, fetch_all found)
            (rw (dialled_later, fetch_all found_later)
              (rw
                (worker_joins took args prefix id s.id item s.own peers w w' [] s.own s.get s.add
                  looks s.lead first small stored registered finds)
                (after_join string_of (spawned_args args id)
                  (store_cap s.took s.own [] (id_to_key prefix s.id) s.cap w') (built s.id writes)
                  (peers_of (s.add item)) follows)))),
      next reached (starts (built s.id writes) max_pool_size refl refl),
    )
