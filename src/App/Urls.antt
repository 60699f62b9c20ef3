-- ===== src/App/Urls.antt =====
-- The URL of the database in app/core/database.py and alembic/env.py.
use specter_cloud.Prelude.{◌≡◌, refl, Text, codes, Option, none, some, [], ◌∷◌, ◌++◌, strip_prefix}

abbrev pub or_replaced : Text → Option Text → Text → Text
or_replaced new none kept = kept
or_replaced new (some rest) kept = new ++ rest

-- `s.replace(old, new, 1)`
unfoldable pub replace_first : Text → Text → Text → Text
unfolding strip_prefix
replace_first old new [] = or_replaced new (strip_prefix old []) []
replace_first old new (c ∷ s) =
    let rest = replace_first old new s in or_replaced new (strip_prefix old (c ∷ s)) (c ∷ rest)

-- The URL of the driver for a DATABASE_URL
unfoldable pub async_database_url : Text → Text
unfolding replace_first
async_database_url database_url =
    replace_first (codes "postgresql://") (codes "postgresql+asyncpg://") database_url

pub async_database_url_lem :
    (rest : Text)
    → async_database_url (codes "postgresql://" ++ rest) ≡ codes "postgresql+asyncpg://" ++ rest
unfolding async_database_url replace_first strip_prefix
async_database_url_lem rest = refl
