-- ===== src/Tests/Services.antt =====
-- The registration of the HTTP capability in a cluster of two nodes.
use ww_webcrawler.Prelude.{
  ℕ, ◌≡◌, refl, ◌&&◌, ◌==◌, ◌=?◌, if◌then◌else◌, true, false, none, some, [], ◌∷◌, done,
}
use ww_webcrawler.Sets.SyncMap.{load}
use ww_webcrawler.Launch.Hex.{Text}
use ww_webcrawler.Launch.Stores.{World, text_comparable}
use ww_webcrawler.Services.Register.{Provider, provides, reaches, run_register, run_register_lem}

abbrev provider : Provider ℕ
provider = record {
  host = none;
  path_join = λ a b. a;
  goos = "linux";
  bootstrap = λ addr. none;
  login = none;
  own = 0;
  service = 9;
  peers = some (0, true) ∷ some (1, false) ∷ [];
  took = λ n. n == 0;
  context_done = none;
}

abbrev nothing : World ℕ
nothing node = []

run_register_lem_example :
    (w' : World ℕ) × (run_register ((b'r' ∷ []) ∷ (b'h' ∷ []) ∷ []) provider nothing
      ≡ done (provides, w'))
    × ((n : ℕ) (k : Text)
        → load k (w' n) ≡ (
            if (reaches 0 ((0, true) ∷ (1, false) ∷ []) n && n == 0) && ((b'h' ∷ []) =? k)
            then some 9
            else load k (nothing n)))
run_register_lem_example =
    run_register_lem (b'r' ∷ []) (b'h' ∷ []) [] provider ((0, true) ∷ (1, false) ∷ []) nothing refl
      refl refl refl refl
