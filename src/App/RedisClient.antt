-- ===== src/App/RedisClient.antt =====
-- app/core/redis.py: the client that all requests share, and the lifespan of app/main.py that opens and closes it.
use specter_cloud.Prelude.{
  ℕ, zero, suc, ◌+◌, ◌≡◌, Bool, true, false, Option, none, some, List, [], ◌∷◌, ◌==◌, if◌then◌else◌,
}

-- The process as its tasks see it. A client is a number. `closing` is the client whose `close()` is awaited; the
-- lifespan is the only caller of `close_redis`, so that at most one is.
pub record Clients : Type 0 where
  pub redis : Option ℕ
  pub opened : List ℕ
  pub made : ℕ
  pub closing : Option ℕ

-- before the startup
abbrev pub no_clients : Clients
no_clients = record { redis = none; opened = []; made = 0; closing = none }

-- `aioredis.from_url`: a client that was not there before
abbrev pub from_url : Clients → Clients
from_url s = record s { redis = some s.made; opened = s.made ∷ s.opened; made = s.made + 1 }

abbrev pub get_or_make : Option ℕ → Clients → ℕ × Clients
get_or_make none s = (s.made, from_url s)
get_or_make (some client) s = (client, s)

-- It does not await anything, so that no other task runs in between.
unfoldable pub get_redis : Clients → ℕ × Clients
get_redis s = get_or_make s.redis s

abbrev pub without : ℕ → List ℕ → List ℕ
without client [] = []
without client (c ∷ opened) =
    let rest = without client opened in if c == client then rest else c ∷ rest

-- `close_redis` up to the await
unfoldable pub close_begins : Clients → Clients
close_begins s = record s { closing = s.redis }

-- How the await ends: the client is closed, or it raises and may or may not be.
pub data CloseEnd : Type 0 where
  closed : CloseEnd
  close_raised : Bool → CloseEnd

abbrev pub close_ended : CloseEnd → ℕ → Clients → Clients
close_ended closed client s = record s {
  redis = none;
  opened = without client s.opened;
  closing = none;
}
close_ended (close_raised true) client s = record s {
  opened = without client s.opened;
  closing = none;
}
close_ended (close_raised false) client s = record s { closing = none }

abbrev pub closing_ended : CloseEnd → Option ℕ → Clients → Clients
closing_ended end none s = s
closing_ended end (some client) s = close_ended end client s

-- `close_redis` from the await on
unfoldable pub close_ends : CloseEnd → Clients → Clients
close_ends end s = closing_ended end s.closing s

-- What the tasks of the process do, one after another. A close begins when none is awaited.
pub data Step : Clients → Clients → Type 0 where
  get : (s : Clients) → Step s (get_redis s).1
  begin_close : (s : Clients) → s.closing ≡ none → Step s (close_begins s)
  end_close : (end : CloseEnd) (s : Clients) → Step s (close_ends end s)

pub data Reach (s : Clients) : Clients → Type 0 where
  start : Reach s s
  next : {mid last : Clients} → Reach s mid → Step mid last → Reach s last

-- the clients that so many requests get, one after another
unfoldable pub serve : ℕ → Clients → List ℕ × Clients
unfolding get_redis
serve zero s = ([], s)
serve (suc n) s =
    let (client, mid) = get_redis s in let (clients, last) = serve n mid in (client ∷ clients, last)

-- `lifespan`: the startup, so many requests, and the shutdown. What comes first is the client of the startup.
unfoldable pub lifespan : ℕ → CloseEnd → Clients → List ℕ × Clients
unfolding serve close_begins close_ends
lifespan n end s =
    let (first, started) = get_redis s in
    let (clients, served) = serve n started in
    (first ∷ clients, close_ends end (close_begins served))
