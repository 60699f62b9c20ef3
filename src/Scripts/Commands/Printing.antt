-- ===== src/Scripts/Commands/Printing.antt =====
-- What the ends of the commands say of the calls that they print.
use specter_cloud.Prelude.{◌≡◌, refl}
use specter_cloud.Store.{Error, Db, Result, ok, err}
use specter_cloud.Scripts.Commands.{uncaught, printed, print_result}

pub print_result-printed :
    {A : Type 0} (o : Result A × Db) {a : A} → (print_result o).0 ≡ printed a → o.0 ≡ ok a
print_result-printed (ok b, db) h = cc
print_result-printed (err e, db) h = cc

pub print_result-tables : {A : Type 0} (o : Result A × Db) → (print_result o).1 ≡ o.1
print_result-tables (ok b, db) = refl
print_result-tables (err e, db) = refl

pub print_result-ok :
    {A : Type 0} (o : Result A × Db) {a : A} → o.0 ≡ ok a → (print_result o).0 ≡ printed a
print_result-ok (ok b, db) h = cc
print_result-ok (err e, db) h = cc

pub print_result-err :
    {A : Type 0} (o : Result A × Db) {e : Error} → o.0 ≡ err e → (print_result o).0 ≡ uncaught e
print_result-err (ok b, db) h = cc
print_result-err (err e, db) h = cc
