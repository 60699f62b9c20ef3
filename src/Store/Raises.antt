-- ===== src/Store/Raises.antt =====
-- Which errors a call may raise, put together along its parts.
use specter_cloud.Prelude.{
  subst, ◌≡◌, refl, inl, inr, Text, Bool, true, false, Option, none, some, List, [], ◌∷◌,
  if◌then◌else◌, Bool-cases,
}
use specter_cloud.Models.{AuditLog}
use specter_cloud.Store.{
  Db, State, Error, http_exception, value_error, integrity_error, data_error,
  multiple_results_found, Result, ok, err, Action, pure, raise, query, modify, log_warning, after,
  ◌>>=◌, ◌>>◌, flush, flushed, commit, refused, row_fits, row_refers,
}

abbrev pub is_http : Error → Bool
is_http (http_exception status detail) = true
is_http value_error = false
is_http integrity_error = false
is_http data_error = false
is_http multiple_results_found = false

module _ (P : Error → Type 0) where
  -- All errors of a call satisfy `P`.
  pub record Raises {A : Type 0} (m : Action A) : Type 0 where
    pub errors : (s : State) (e : Error) → (m s).0 ≡ err e → P e

  pub Raises-pure : {A : Type 0} (a : A) → Raises (pure a)
  Raises-pure a = record { errors = λ s e h. cc }

  pub Raises-raise : {A : Type 0} (e : Error) → P e → Raises {A = A} (raise e)
  Raises-raise e p = record { errors = λ s e' h. subst P (cc h) p }

  pub Raises-query : {A : Type 0} (f : Db → A) → Raises (query f)
  Raises-query f = record { errors = λ s e h. cc }

  pub Raises-modify : (f : Db → Db) → Raises (modify f)
  Raises-modify f = record { errors = λ s e h. cc }

  pub Raises-log_warning : (event : Text) (reason : Option Text) → Raises (log_warning event reason)
  Raises-log_warning event reason = record { errors = λ s e h. cc }

  pub Raises-if :
      {A : Type 0} (b : Bool) {m n : Action A} → Raises m → Raises n → Raises (if b then m else n)
  Raises-if true m n = m
  Raises-if false m n = n

  Raises-after :
      {A B : Type 0} (r : Result A × State) (f : A → Action B)
      → ((e : Error) → r.0 ≡ err e → P e)
      → ((a : A) → Raises (f a))
      → (e : Error) → (after r f).0 ≡ err e
      → P e
  Raises-after (ok a, s) f m k e h = (k a).errors s e h
  Raises-after (err e', s) f m k e h = m e (cc h)

  pub Raises->>= :
      {A B : Type 0} {m : Action A} {f : A → Action B}
      → Raises m
      → ((a : A) → Raises (f a))
      → Raises (m >>= f)
  Raises->>= {m = m} {f = f} r k = record {
    errors = λ s e h. Raises-after (m s) f (r.errors s) k e h;
  }

  pub Raises->> :
      {A B : Type 0} {m : Action A} {k : Action B} → Raises m → Raises k → Raises (m >> k)
  Raises->> r k = Raises->>= r (λ _. k)

  module _ (internal : (e : Error) → is_http e ≡ false → P e) where
    refused-internal : (db : Db) (rows : List AuditLog) (e : Error) → refused db rows ≡ some e → P e
    unfolding refused
    refused-internal db [] e h = cc
    refused-internal db (r ∷ rows) e h = elim (Bool-cases (row_fits r)) [
      | inl fits ↦ elim (Bool-cases (row_refers db r)) [
        | inl refers ↦ refused-internal db rows e (rw (fits, refers) at h)
        | inr dangling ↦ subst P (cc (rw (fits, dangling) at h)) (internal integrity_error refl)
      ]
      | inr long ↦ subst P (cc (rw long at h)) (internal data_error refl)
    ]

    pub Raises-flush : Raises flush
    unfolding flush
    Raises-flush = record { errors = λ s e h. by_refusal s e (refused s.current s.pending) refl h }
      where
        by_refusal :
            (s : State) (e : Error) (o : Option Error)
            → refused s.current s.pending ≡ o
            → (flushed o s).0 ≡ err e
            → P e
        by_refusal s e none r h = cc
        by_refusal s e (some e') r h = subst P (cc h) (refused-internal s.current s.pending e' r)

    pub Raises-commit : Raises commit
    unfolding commit
    Raises-commit = Raises->> Raises-flush (record { errors = λ s e h. cc })
