-- ===== src/Programs/Handlers/Cached.antt =====
-- cmd/merchant/handler.go: the cache of handlers beside a server that keeps none.
use payme_mock.Base.{
  ◌≡◌, refl, ap, ◌∙◌, sym, subst, Option, none, some, List, [], ◌∷◌, if_true, if_false, Bool-cases,
  inl, inr,
}
use payme_mock.Base.Int.{ℤ}
use payme_mock.Base.Text.{Text}
use payme_mock.Base.Dict.{lookup, lookup-insert}
use payme_mock.Kernel.Effect.{Result, ok, err}
use payme_mock.Kernel.Http.{Request, Answer, Handler, Sandbox, internal_error}
use payme_mock.Simulation.Config as Config
use payme_mock.Programs.Handlers.{
  RegisterKey, same_key, same_key_iff, register_key_eq, Dependencies, Built, load_settings, build,
  built_for, found_for, for_register, key_of, delegated, serve_scoped, serve_cached,
}

some_injective : {A : Type 0} {a b : A} → some a ≡ some b → a ≡ b
some_injective h = cc

module _ {W : Type 0} (deps : Dependencies W) where
  -- The server that reads the profile and builds the handler for every call.
  abbrev fresh_of : Text → Result Config.Settings → Result (Handler W)
  fresh_of kind (ok s) = ok (build deps s kind)
  fresh_of kind (err e) = err e

  abbrev fresh_for : ℤ → Text → W → Result (Handler W)
  fresh_for config kind w = fresh_of kind (load_settings deps.profiles config w)

  abbrev fresh_scoped : Option Sandbox → Handler W
  fresh_scoped none r w = (internal_error, r, w)
  fresh_scoped (some s) r w = delegated deps (fresh_for s.config_id s.kind w) r w

  abbrev pub serve_fresh : Handler W
  serve_fresh r w = fresh_scoped r.sandbox r w

  -- The answers to a sequence of calls, and the world behind them.
  abbrev pub answers_fresh : List Request → W → List Answer × W
  answers_fresh [] w = ([], w)
  answers_fresh (r ∷ rs) w =
      let (a, r', w') = serve_fresh r w in let rest = answers_fresh rs w' in (a ∷ rest.0, rest.1)

  abbrev pub answers_cached : List Request → Built W → W → List Answer × W
  answers_cached [] built w = ([], w)
  answers_cached (r ∷ rs) built w =
      let ((a, r', w'), built') = serve_cached deps built r w in
      let rest = answers_cached rs built' w' in (a ∷ rest.0, rest.1)

  -- Every handler of the cache is the one that would be built now.
  abbrev Coherent : Built W → W → Type 0
  Coherent built w =
      (key : RegisterKey) (handler : Handler W)
      → lookup key built ≡ some handler
      → fresh_for key.config_id key.kind w ≡ ok handler

  -- No call edits a profile.
  abbrev pub ProfilesKept : Type 0
  ProfilesKept =
      (r : Request) (w : W) (id : ℤ)
      → load_settings deps.profiles id (serve_fresh r w).2 ≡ load_settings deps.profiles id w

  built_for-fresh :
      (config : ℤ) (kind : Text) (built : Built W) (w : W) (x : Result Config.Settings)
      → load_settings deps.profiles config w ≡ x
      → Coherent built w
      → ((built_for deps config kind x built).0 ≡ fresh_for config kind w)
        × Coherent (built_for deps config kind x built).1 w
  built_for-fresh config kind built w (err e) h c = (sym (ap (fresh_of kind) h), c)
  built_for-fresh config kind built w (ok s) h c =
      let key = key_of config kind in
      let handler' : Handler W = build deps s kind in
      (
        sym (ap (fresh_of kind) h),
        λ other handler found. elim (Bool-cases (same_key key other)) [
          | inl e ↦
              subst (λ (k : RegisterKey). fresh_for k.config_id k.kind w ≡ ok handler)
                ((same_key_iff key other).0 e)
                (ap (fresh_of kind) h
                  ∙ ap ok (
                      some_injective (
                        sym (if_true (same_key key other) (some handler') (lookup other built) e)
                        ∙ sym (lookup-insert key other handler' built)
                        ∙ found)))
          | inr e ↦ c other handler (
              sym (if_false (same_key key other) (some handler') (lookup other built) e)
              ∙ sym (lookup-insert key other handler' built)
              ∙ found)
        ],
      )

  found_for-fresh :
      (config : ℤ) (kind : Text) (built : Built W) (w : W) (x : Option (Handler W))
      → lookup (key_of config kind) built ≡ x
      → Coherent built w
      → ((found_for deps config kind x built w).0 ≡ fresh_for config kind w)
        × Coherent (found_for deps config kind x built w).1 w
  found_for-fresh config kind built w (some handler) h c =
      (sym (c (key_of config kind) handler h), c)
  found_for-fresh config kind built w none h c =
      built_for-fresh config kind built w (load_settings deps.profiles config w) refl c

  scoped-fresh :
      (o : Option Sandbox) (built : Built W) (r : Request) (w : W)
      → Coherent built w
      → ((serve_scoped deps o built r w).0 ≡ fresh_scoped o r w)
        × Coherent (serve_scoped deps o built r w).1 w
  unfolding for_register
  scoped-fresh none built r w c = (refl, c)
  scoped-fresh (some s) built r w c =
      let (same, kept) =
        found_for-fresh s.config_id s.kind built w (lookup (key_of s.config_id s.kind) built) refl
          c in
      (ap (λ h. delegated deps h r w) same, kept)

  cached_answers :
      (rs : List Request) (built : Built W) (w : W)
      → ProfilesKept
      → Coherent built w
      → answers_cached rs built w ≡ answers_fresh rs w
  unfolding serve_cached
  cached_answers [] built w kept c = refl
  cached_answers (r ∷ rs) built w kept c =
      let (same, c') = scoped-fresh r.sandbox built r w c in
      let built' : Built W = (serve_scoped deps r.sandbox built r w).1 in
      ap
        (λ (x : Answer × Request × W).
          (x.0 ∷ (answers_cached rs built' x.2).0, (answers_cached rs built' x.2).1))
        same
      ∙ ap (λ (x : List Answer × W). ((serve_fresh r w).0 ∷ x.0, x.1))
          (cached_answers rs built' (serve_fresh r w).2 kept (λ key handler found.
            ap (fresh_of key.kind) (kept r w key.config_id) ∙ c' key handler found))

  -- The cache is not to be seen from outside: while no call edits a profile, a sequence of calls to
  -- the server that starts with an empty cache gets the answers, and leaves the world, of a server
  -- that reads the profile and builds the handler anew for every call, for whatever stands, profiles
  -- and kinds of register.
  pub answers_cached-fresh :
      (rs : List Request) (w : W) → ProfilesKept → answers_cached rs [] w ≡ answers_fresh rs w
  unfolding lookup
  answers_cached-fresh rs w kept = cached_answers rs [] w kept (λ key handler found. cc)
