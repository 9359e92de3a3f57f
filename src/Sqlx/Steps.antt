-- ===== src/Sqlx/Steps.antt =====
-- Reasoning about the timed requests of crates/libs/lib-lualib/src/lua_sqlx.rs part by part: what
-- every part keeps, the whole keeps.
use lrust.Base.{List, [], ◌∷◌, ◌++◌}
use lrust.Sqlx.Types.{Error, Result, ok, err}
use lrust.Sqlx.Driver.{
  Call, Statement, History, Turn, Exit, value, failure, cancelled, panicked, Async, pure, throw,
  and_then, ◌>>=◌, on_result, match_result, lift,
}

-- The statements that have gone to the database, in order.
unfoldable pub statements : History → List Statement
statements [] = []
statements (Call.executes conn s ∷ h) = statements h ++ s ∷ []
statements (Call.fetches conn s ∷ h) = statements h ++ s ∷ []
statements (_ ∷ h) = statements h

-- Code that only makes related turns, however it ends.
pub record Keeps {A : Type 0} (R : Turn → Turn → Type 0) (m : Async A) : Type 0 where
  pub at : (t : Turn) → R t (m t).0

pub record IsPreorder (R : Turn → Turn → Type 0) : Type 0 where
  pub reflexive : (t : Turn) → R t t
  pub transitive : (s t u : Turn) → R s t → R t u → R s u

module _ {R : Turn → Turn → Type 0} (r : IsPreorder R) where
  pub Keeps-pure : {A : Type 0} (a : A) → Keeps R (pure a)
  unfolding pure
  Keeps-pure a = record { at = λ t. r.reflexive t }

  pub Keeps-throw : {A : Type 0} (e : Error) → Keeps R (throw {A = A} e)
  unfolding throw
  Keeps-throw e = record { at = λ t. r.reflexive t }

  lift-turn : {A : Type 0} (m : Result A) (t : Turn) → R t (lift m t).0
  unfolding lift
  lift-turn (ok a) t = r.reflexive t
  lift-turn (err e) t = r.reflexive t

  pub Keeps-lift : {A : Type 0} (m : Result A) → Keeps R (lift m)
  Keeps-lift m = record { at = lift-turn m }

  and_then-Keeps :
      {A B : Type 0} (s : Turn) (p : Turn × Exit A) (f : A → Async B)
      → R s p.0
      → ((a : A) → Keeps R (f a))
      → R s (and_then f p).0
  and_then-Keeps s (t, value a) f h k = r.transitive s t _ h ((k a).at t)
  and_then-Keeps s (t, failure e) f h k = h
  and_then-Keeps s (t, cancelled) f h k = h
  and_then-Keeps s (t, panicked) f h k = h

  pub Keeps->>= :
      {A B : Type 0} (m : Async A) (f : A → Async B)
      → Keeps R m
      → ((a : A) → Keeps R (f a))
      → Keeps R (m >>= f)
  unfolding ◌>>=◌
  Keeps->>= m f h k = record { at = λ t. and_then-Keeps t (m t) f (h.at t) k }

  on_result-Keeps :
      {A B : Type 0} (s : Turn) (p : Turn × Exit A) (f : A → Async B) (g : Error → Async B)
      → R s p.0
      → ((a : A) → Keeps R (f a))
      → ((e : Error) → Keeps R (g e))
      → R s (on_result f g p).0
  on_result-Keeps s (t, value a) f g h k l = r.transitive s t _ h ((k a).at t)
  on_result-Keeps s (t, failure e) f g h k l = r.transitive s t _ h ((l e).at t)
  on_result-Keeps s (t, cancelled) f g h k l = h
  on_result-Keeps s (t, panicked) f g h k l = h

  pub Keeps-match_result :
      {A B : Type 0} (m : Async A) (f : A → Async B) (g : Error → Async B)
      → Keeps R m
      → ((a : A) → Keeps R (f a))
      → ((e : Error) → Keeps R (g e))
      → Keeps R (match_result m f g)
  unfolding match_result
  Keeps-match_result m f g h k l = record { at = λ t. on_result-Keeps t (m t) f g (h.at t) k l }

pub ruleset keeps_rules = (Keeps-pure, Keeps-throw, Keeps-lift, Keeps->>=, Keeps-match_result)
