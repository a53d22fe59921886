-- ===== src/Services/Register.antt =====
-- services/register_services.go: the registration of the HTTP capability in the stores of a cluster.
use ww_webcrawler.Prelude.{
  ℕ, ◌≡◌, refl, sym, ap, ==_iff, true, string_comparable, Bool, false, ◌&&◌, ◌||◌, String, Option,
  none, some, List, [], ◌∷◌, map, Panics, done, panicked, ◌>>=◌, ◌==◌, ltb, ◌=?◌, if◌then◌else◌,
  Bool-cases, inl, inr, length, load_at, arith,
}
use ww_webcrawler.Sets.SyncMap.{load, store, load-store}
use ww_webcrawler.Launch.Hex.{Text}
use ww_webcrawler.Launch.Stores.{World, text_comparable, set_at}

-- `goos` is runtime.GOOS.
unfoldable pub loopback : (goos : String) → String
loopback goos = if goos =? "darwin" then "lo0" else "lo"

-- `path_join` is path.Join.
unfoldable pub bootstrap_addr : (path_join : String → String → String) → (goos : String) → String
unfolding loopback
bootstrap_addr path_join goos = path_join "/ip4/228.8.8.8/udp/8822/multicast" (loopback goos)

-- How far main gets: `exit` with a cause, its last line, or the wait until its context is done.
pub data Ending : Type 0 where
  exited : String → Ending
  graceful : Ending
  provides : Ending

abbrev pub usage : String
usage = "usage: register_services <key>"

-- The end of main: `done` is none as long as the context is not done, and then what its `Err` is.
abbrev ending : (done : Option (Option String)) → Ending
ending none = provides
ending (some none) = graceful
ending (some (some cause)) = exited cause

-- `key` on os.Args: none where it exits with the usage.
unfoldable pub key : List Text → Panics (Option Text)
key args = if ltb (length args) 2 then done none else (load_at args 1 >>= λ k. done (some k))

-- Whether one of the peers is the node `n`.
unfoldable pub reaches : (own : ℕ) → List (ℕ × Bool) → ℕ → Bool
reaches own [] n = false
reaches own ((node, self) ∷ peers) n = (n == (if self then own else node)) || reaches own peers n

-- What main finds around it: the errors of libp2p, of the bootstrap and of the login, the node of its
-- session, its capability, what DialPeer answers, the nodes whose stores take the call of `Set`, and
-- whether the context is done.
pub record Provider (R : Type 0) : Type 0 where
  pub host : Option String
  pub path_join : String → String → String
  pub goos : String
  -- at an address
  pub bootstrap : String → Option String
  pub login : Option String
  pub own : ℕ
  pub service : R
  pub peers : List (Option (ℕ × Bool))
  pub took : ℕ → Bool
  pub context_done : Option (Option String)

module _ {R : Type 0} where
  -- The loop of `registerServices`: what DialPeer answers for each peer, none for an error. `own` is
  -- the node of its session. The calls of `Set` are started: none of them is awaited or looked at, and
  -- the stores are as those that take effect leave them.
  unfoldable pub register_services :
      (took : ℕ → Bool)
      → (own : ℕ) → Text
      → R
      → List (Option (ℕ × Bool))
      → World R
      → Panics (World R)
  register_services took own key service [] w = done w
  register_services took own key service (none ∷ peers) w = panicked
  register_services took own key service (some (node, self) ∷ peers) w =
      register_services took own key service peers
        (set_at took (if self then own else node) key service w)

  abbrev exit_on : Option String → World R → Panics (Ending × World R) → Panics (Ending × World R)
  exit_on none w rest = rest
  exit_on (some cause) w rest = done (exited cause, w)

  -- main on os.Args
  unfoldable pub run_register :
      (args : List Text) → Provider R → World R → Panics (Ending × World R)
  unfolding key register_services bootstrap_addr
  run_register args p w = key args >>= λ found. elim found [
    | none ↦ done (exited usage, w)
    | some k ↦ exit_on p.host w (
        exit_on (p.bootstrap (bootstrap_addr p.path_join p.goos)) w (
          exit_on p.login w (
            register_services p.took p.own k p.service p.peers w >>= λ w'.
            done (ending p.context_done, w'))))
  ]

  load-set_at :
      (took : ℕ → Bool) (node : ℕ) (key : Text) (service : R) (w : World R) (n : ℕ) (k : Text)
      → load k (set_at took node key service w n)
        ≡ (if (n == node && took n) && (key =? k) then some service else load k (w n))
  load-set_at took node key service w n k = elim (Bool-cases (n == node)) [
    | inl here ↦
        let same : took node ≡ took n = ap took (sym ((==_iff n node).0 here)) in
        rw (here, same) (by_effect (took n))
    | inr away ↦ rw away refl
  ]
    where
      by_effect :
          (b : Bool)
          → load k (if b then store key service (w n) else w n)
            ≡ (if b && (key =? k) then some service else load k (w n))
      by_effect true = load-store key k service (w n)
      by_effect false = refl

  -- Where every peer answers.
  register_services_lem :
      (took : ℕ → Bool) (own : ℕ) (key : Text) (service : R) (peers : List (ℕ × Bool)) (w : World R)
      → (w' : World R) × (register_services took own key service (map (λ p. some p) peers) w
          ≡ done w')
        × ((n : ℕ) (k : Text)
            → load k (w' n) ≡ (
                if (reaches own peers n && took n) && (key =? k)
                then some service
                else load k (w n)))
  unfolding register_services reaches
  register_services_lem took own key service [] w = (w, refl, λ n k. refl)
  register_services_lem took own key service ((node, self) ∷ peers) w =
      let (w', made, holds) =
        register_services_lem took own key service peers
          (set_at took (if self then own else node) key service w) in
      (
        w',
        made,
        λ n k.
            ground
              (arith, holds n k, load-set_at took (if self then own else node) key service w n k),
      )

  -- With a key among the arguments, no error at the start, peers that all answer, and a context that
  -- is not done, which main itself never cancels: main starts the registration of the capability,
  -- does not panic and waits. The stores of the peers where the call of `Set` takes effect hold the
  -- capability under the key; every other store, and every other key of these, is as before.
  pub run_register_lem :
      (program key : Text) (rest : List Text) (p : Provider R) (peers : List (ℕ × Bool))
      (w : World R)
      → p.host ≡ none
      → p.bootstrap (bootstrap_addr p.path_join p.goos) ≡ none
      → p.login ≡ none
      → p.peers ≡ map (λ peer. some peer) peers
      → p.context_done ≡ none
      → (w' : World R) × (run_register (program ∷ key ∷ rest) p w ≡ done (provides, w'))
        × ((n : ℕ) (k : Text)
            → load k (w' n) ≡ (
                if (reaches p.own peers n && p.took n) && (key =? k)
                then some p.service
                else load k (w n)))
  unfolding run_register load_at
  run_register_lem program key rest p peers w host bootstrap login dialled waits =
      let (w', made, holds) = register_services_lem p.took p.own key p.service peers w in
      let enough : ltb (length (program ∷ key ∷ rest)) 2 ≡ false = ground arith in
      (w', rw enough (rw (host, bootstrap, login, dialled, waits) (rw made refl)), holds)
