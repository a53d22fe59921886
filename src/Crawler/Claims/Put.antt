-- ===== src/Crawler/Claims/Put.antt =====
-- `claimUrls`: what goes into the local queue, and what the others are told.
use ww_webcrawler.Prelude.{
  ◌≡◌, refl, sym, ap, subst, ◌∙◌, String, Option, none, some, List, [], ◌∷◌, ◌++◌, append-nil,
  append_assoc, done, string_comparable,
}
use mathlib.Core.List.{Perm, perm_middle}
use mathlib.Core.List.Perm
use ww_webcrawler.Queue
use ww_webcrawler.Queue.{UniqueQueue, QueueError, queue_full, queue_empty, queue_duplicate}
use ww_webcrawler.Queue.View.{contents}
use ww_webcrawler.Queue.Put.{PutOutcome}
use ww_webcrawler.Crawler.Claims.{put_claims}
use ww_webcrawler.Crawler.Valid.{QueueFits, put_fits}

-- What the puts of `urls` leave, started with `claimed` and `unclaimed`.
pub record Puts (q : UniqueQueue String) (urls claimed unclaimed : List String)
    (q' : UniqueQueue String) (claimed' unclaimed' : List String) : Type 0 where
  pub fits : QueueFits q'
  -- the new claims, which the queue now holds behind its old contents
  pub taken : List String
  pub claims : claimed' ≡ claimed ++ taken
  pub queued : contents q' ≡ contents q ++ taken
  -- every URL is on one side
  pub split : Perm (claimed' ++ unclaimed') (claimed ++ (unclaimed ++ urls))

abbrev PutClaims : UniqueQueue String → List String → List String → List String → Type 0
PutClaims q urls claimed unclaimed =
    (q' : UniqueQueue String) × (claimed' : List String) × (unclaimed' : List String) × (put_claims
        q urls claimed unclaimed
      ≡ done (q', claimed', unclaimed'))
    × Puts q urls claimed unclaimed q' claimed' unclaimed'

pub move_middle :
    (url : String) (xs ys zs : List String)
    → Perm ((xs ++ url ∷ []) ++ (ys ++ zs)) (xs ++ (ys ++ url ∷ zs))
move_middle url xs ys zs =
    rw (append_assoc xs (url ∷ []) (ys ++ zs)) (Perm.append_left xs (Perm.symm (perm_middle ys zs)))

put_accepted :
    (q w : UniqueQueue String) (url : String) (urls claimed unclaimed : List String)
    → Queue.put q url ≡ done (none, w)
    → contents w ≡ contents q ++ url ∷ []
    → PutClaims w urls (claimed ++ url ∷ []) unclaimed
    → PutClaims q (url ∷ urls) claimed unclaimed
unfolding put_claims
put_accepted q w url urls claimed unclaimed h grown (q', cs, us, e, p) = (
  q',
  cs,
  us,
  rw h e,
  record {
    fits = p.fits;
    taken = url ∷ p.taken;
    claims = p.claims ∙ append_assoc claimed (url ∷ []) p.taken;
    queued =
        p.queued ∙ ap (λ xs. xs ++ p.taken) grown ∙ append_assoc (contents q) (url ∷ []) p.taken;
    split = Perm.trans p.split (move_middle url claimed unclaimed urls);
  },
)

put_refused :
    (q : UniqueQueue String) (url : String) (x : QueueError) (urls claimed unclaimed : List String)
    → Queue.put q url ≡ done (some x, q)
    → PutClaims q urls claimed (unclaimed ++ url ∷ [])
    → PutClaims q (url ∷ urls) claimed unclaimed
unfolding put_claims
put_refused q url x urls claimed unclaimed h (q', cs, us, e, p) = (
  q',
  cs,
  us,
  rw h e,
  record {
    fits = p.fits;
    taken = p.taken;
    claims = p.claims;
    queued = p.queued;
    split =
        subst (λ ys. Perm (cs ++ us) (claimed ++ ys)) (append_assoc unclaimed (url ∷ []) urls)
          p.split;
  },
)

-- The loop of `claimUrls` never panics. The URLs that it claims are those that the queue took, in
-- order, behind what it held; each of the others is left unclaimed.
pub put_claims_lem :
    (q : UniqueQueue String) (urls claimed unclaimed : List String)
    → QueueFits q
    → PutClaims q urls claimed unclaimed
unfolding put_claims
put_claims_lem q [] claimed unclaimed v = (
  q,
  claimed,
  unclaimed,
  refl,
  record {
    fits = v;
    taken = [];
    claims = sym (append-nil claimed);
    queued = sym (append-nil (contents q));
    split = rw (append-nil unclaimed) (Perm.refl _);
  },
)
put_claims_lem q (url ∷ urls) claimed unclaimed v =
    go (put_fits q url v) (λ w. put_claims_lem w urls (claimed ++ url ∷ []) unclaimed)
      (put_claims_lem q urls claimed (unclaimed ++ url ∷ []) v)
  where
    go :
        (e : Option QueueError) × (w : UniqueQueue String) × (Queue.put q url ≡ done (e, w))
          × PutOutcome q url w e
          × QueueFits w
        → ((w : UniqueQueue String)
            → QueueFits w
            → PutClaims w urls (claimed ++ url ∷ []) unclaimed)
        → PutClaims q urls claimed (unclaimed ++ url ∷ [])
        → PutClaims q (url ∷ urls) claimed unclaimed
    go (none, w, h, o, fits) accepted refused =
        put_accepted q w url urls claimed unclaimed h o.0 (accepted w fits)
    go (some queue_empty, w, h, o, fits) accepted refused = absurd o
    go (some queue_full, w, h, o, fits) accepted refused =
        put_refused q url queue_full urls claimed unclaimed (rw o.0 at h) refused
    go (some queue_duplicate, w, h, o, fits) accepted refused =
        put_refused q url queue_duplicate urls claimed unclaimed (rw o.0 at h) refused
