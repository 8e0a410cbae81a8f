-- ===== src/Platform/Monad.antt =====
-- Code that talks to the database and may fail, and `database/sql` transactions.
--
-- One transaction runs at a time: the rows that the code reads are locked by FOR UPDATE.
pub mod Ensures
pub mod Moves
use seshatops.Base.{Bool, true, false, Option, none, some, List, [], ◌∷◌}
use seshatops.Base.Result.{Result, ok, err}
use seshatops.Platform.World.{
  Db, World, Outcome, succeeds, fails, unheard, PlatformError, transient,
}

abbrev pub M : Type 0 → Type 0
M A = World → Result PlatformError A × World

unfoldable pub pure : {A : Type 0} → A → M A
pure a w = (ok a, w)

unfoldable pub raise : {A : Type 0} → PlatformError → M A
raise e w = (err e, w)

abbrev pub continue : {A B : Type 0} → Result PlatformError A → (A → M B) → M B
continue (ok a) f w = f a w
continue (err e) f w = (err e, w)

infixl 5 ◌>>=◌ ◌>>◌
unfoldable pub ◌>>=◌ : {A B : Type 0} → M A → (A → M B) → M B
◌>>=◌ m f w = let (r, w') = m w in continue r f w'

abbrev pub ◌>>◌ : {B : Type 0} → M (Unit {0}) → M B → M B
m >> k = m >>= λ _. k

-- One call of the driver; its outcome is taken off the list.
unfoldable pub take_outcome : List Outcome → World → Outcome × World
take_outcome [] w = (succeeds, w)
take_outcome (o ∷ rest) w = (o, record w { outcomes = rest })

unfoldable pub outcome : World → Outcome × World
unfolding take_outcome
outcome w = take_outcome w.outcomes w

abbrev answer : {A : Type 0} → Outcome → A → Result PlatformError A
answer succeeds a = ok a
answer fails a = err transient
answer unheard a = err transient

-- SELECT
unfoldable pub query : {A : Type 0} → (Db → A) → M A
query f w = let (o, w') = outcome w in (answer o (f w.db), w')

abbrev changed : Outcome → (Db → Db) → World → World
changed succeeds f w = record w { db = f w.db }
changed fails f w = w
changed unheard f w = w

-- A statement that changes rows and answers with what it finds before the change.
unfoldable pub exec_returning : {A : Type 0} → (Db → A) → (Db → Db) → M A
exec_returning g f w = let (o, w') = outcome w in (answer o (g w.db), changed o f w')

-- INSERT, UPDATE, DELETE
unfoldable pub exec : (Db → Db) → M (Unit {0})
unfolding exec_returning
exec = exec_returning (λ _. tt)

-- The commit after a body that returned `a`, begun at the database `old`.
abbrev committed : {A : Type 0} → Outcome → Db → A → World → Result PlatformError A × World
committed succeeds old a w = (ok a, w)
committed fails old a w = (err transient, record w { db = old })
committed unheard old a w = (err transient, w)

-- The end of the transaction: `Commit`, or the deferred `Rollback`.
abbrev finished :
    {A : Type 0} → Db → Result PlatformError A → World → Result PlatformError A × World
finished old (ok a) w = let (o, w') = outcome w in committed o old a w'
finished old (err e) w = (err e, record w { db = old })

abbrev begun : {A : Type 0} → Outcome → M A → M A
begun succeeds m w = let (r, w') = m w in finished w.db r w'
begun fails m w = (err transient, w)
begun unheard m w = (err transient, w)

-- `BeginTx`, the body, and its end.
unfoldable pub transact : {A : Type 0} → M A → M A
transact m w = let (o, w') = outcome w in begun o m w'
