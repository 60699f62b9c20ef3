-- ===== src/App/OneClient.antt =====
-- How many clients of Redis are open at once, and which one the requests get.
use specter_cloud.Prelude.{
  ◌+◌, ◌∙◌, ℕ, zero, suc, ◌≡◌, ◌⊎◌, inl, inr, refl, ap, true, false, Option, none, some, List, [],
  ◌∷◌, ==_refl,
}
use specter_cloud.App.RedisClient.{
  from_url, closing_ended, get_or_make, without, Clients, no_clients, get_redis, close_begins,
  close_ends, CloseEnd, closed, close_raised, Step, get, begin_close, end_close, Reach, start, next,
  serve, lifespan,
}

-- No client is open, or only the one that the requests get; and no other one is being closed.
pub record OneClient (s : Clients) : Type 0 where
  pub at_most_one :
      (s.opened ≡ []) ⊎ ((client : ℕ) × (s.opened ≡ client ∷ []) × (s.redis ≡ some client))
  pub closes_it : (client : ℕ) → s.closing ≡ some client → s.redis ≡ some client

without_it :
    (client : ℕ) (s : Clients) → OneClient s → s.redis ≡ some client → without client s.opened ≡ []
without_it client s one e = elim one.at_most_one [
  | inl none_open ↦ rw none_open refl
  | inr (c, only, it) ↦ let same : c ≡ client = cc (it, e) in rw (only, same, ==_refl client) refl
]

get_redis-OneClient :
    (o : Option ℕ) (s : Clients) → s.redis ≡ o → OneClient s → OneClient (get_or_make o s).1
get_redis-OneClient (some client) s e one = one
get_redis-OneClient none s e one = record {
  at_most_one = elim one.at_most_one [
    | inl none_open ↦ inr (s.made, ap (λ cs. s.made ∷ cs) none_open, refl)
    | inr (c, only, it) ↦ absurd (cc (it, e))
  ];
  closes_it = λ client c. absurd (cc (one.closes_it client c, e));
}

close_ends-OneClient :
    (end : CloseEnd) (o : Option ℕ) (s : Clients)
    → s.closing ≡ o
    → OneClient s
    → OneClient (closing_ended end o s)
close_ends-OneClient end none s e one = one
close_ends-OneClient closed (some client) s e one = record {
  at_most_one = inl (without_it client s one (one.closes_it client e));
  closes_it = λ c h. cc;
}
close_ends-OneClient (close_raised true) (some client) s e one = record {
  at_most_one = inl (without_it client s one (one.closes_it client e));
  closes_it = λ c h. cc;
}
close_ends-OneClient (close_raised false) (some client) s e one = record {
  at_most_one = one.at_most_one;
  closes_it = λ c h. cc;
}

Step-OneClient : {s s' : Clients} → Step s s' → OneClient s → OneClient s'
unfolding get_redis close_begins close_ends
Step-OneClient (get s) one = get_redis-OneClient s.redis s refl one
Step-OneClient (begin_close s none_closing) one = record {
  at_most_one = one.at_most_one;
  closes_it = λ c h. h;
}
Step-OneClient (end_close end s) one = close_ends-OneClient end s.closing s refl one

-- However requests, the beginnings and the ends of a close follow each other, at most one client of Redis is open:
-- the one that the next request gets.
pub Reach-OneClient : {s : Clients} → Reach no_clients s → OneClient s
Reach-OneClient start = record { at_most_one = inl refl; closes_it = λ c h. cc }
Reach-OneClient (next r step) = Step-OneClient step (Reach-OneClient r)

abbrev pub copies : ℕ → ℕ → List ℕ
copies zero c = []
copies (suc n) c = c ∷ copies n c

serve-copies :
    (n : ℕ) (s : Clients) (client : ℕ) → s.redis ≡ some client → serve n s ≡ (copies n client, s)
unfolding serve get_redis
serve-copies zero s client e = refl
serve-copies (suc n) s client e =
    ap (λ (r : ℕ × Clients). (r.0 ∷ (serve n r.1).0, (serve n r.1).1)) (ap (λ o. get_or_make o s) e)
    ∙ ap (λ (r : List ℕ × Clients). (client ∷ r.0, r.1)) (serve-copies n s client e)

without_first : (c : ℕ) (cs : List ℕ) → cs ≡ [] → without c (c ∷ cs) ≡ []
without_first c cs e = rw (==_refl c, e) refl

-- Between a startup and a shutdown, all requests get the client that the startup made, however many there are.
-- A shutdown whose close returns leaves no client open and none to get.
pub lifespan_lem :
    (n : ℕ) (s : Clients)
    → s.redis ≡ none
    → s.opened ≡ []
    → lifespan n closed s ≡ (
      copies (suc n) s.made,
      record { redis = none; opened = []; made = s.made + 1; closing = none },
    )
unfolding lifespan get_redis close_begins close_ends
lifespan_lem n s none_made none_open =
    ap
      (λ (o : Option ℕ).
        let r = get_or_make o s in
        let t = serve n r.1 in (r.0 ∷ t.0, close_ends closed (close_begins t.1)))
      none_made
    ∙ ap (λ (t : List ℕ × Clients). (s.made ∷ t.0, close_ends closed (close_begins t.1)))
        (serve-copies n (from_url s) s.made refl)
    ∙ ap
        (λ cs. (
          copies (suc n) s.made,
          record { redis = none; opened = cs; made = s.made + 1; closing = none },
        ))
        (without_first s.made s.opened none_open)
