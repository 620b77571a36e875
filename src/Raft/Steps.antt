-- ===== src/Raft/Steps.antt =====
-- What every run of an action keeps between the state before and the state after, whatever fails on
-- the way: one rule for each way to build an action.
use rlite.Base.{Bool, true, false, if◌then◌else◌}
use rlite.Raft.Machine.{Sm, M, Code, Result, ok, err, pure, raise, gets, modify, ◌>>=◌, continue}

-- A relation of states that runs can be composed along.
pub record Preorder (R : Sm → Sm → Type 0) : Type 0 where
  pub refl_at : (s : Sm) → R s s
  pub join : (s t u : Sm) → R s t → R t u → R s u

pub record Steps {A : Type 0} (R : Sm → Sm → Type 0) (m : M A) : Type 0 where
  pub at : (s : Sm) → R s (m s).1

module _ {R : Sm → Sm → Type 0} (p : Preorder R) where
  module _ {A : Type 0} where
    pub Steps-pure : (a : A) → Steps R (pure a)
    unfolding pure
    Steps-pure a = record { at = p.refl_at }

    pub Steps-raise : (c : Code) → Steps R (raise {A = A} c)
    unfolding raise
    Steps-raise c = record { at = p.refl_at }

    pub Steps-gets : (f : Sm → A) → Steps R (gets f)
    unfolding gets
    Steps-gets f = record { at = p.refl_at }

  module _ {A B : Type 0} where
    pub Steps-continue :
        (r : Result A) (f : A → M B) → ((a : A) → Steps R (f a)) → (s : Sm) → R s (continue r f s).1
    Steps-continue (ok a) f h s = (h a).at s
    Steps-continue (err c) f h s = p.refl_at s

    pub Steps-bind :
        (m : M A) (f : A → M B) → Steps R m → ((a : A) → Steps R (f a)) → Steps R (m >>= f)
    unfolding ◌>>=◌
    Steps-bind m f hm hf = record {
      at = λ s. p.join s (m s).1 ((m >>= f) s).1 (hm.at s) (Steps-continue (m s).0 f hf (m s).1);
    }

    -- The same at one state.
    pub Steps-bind_at :
        (m : M A) (f : A → M B) (s : Sm)
        → R s (m s).1
        → ((a : A) → Steps R (f a))
        → R s ((m >>= f) s).1
    unfolding ◌>>=◌
    Steps-bind_at m f s hm hf =
        p.join s (m s).1 ((m >>= f) s).1 hm (Steps-continue (m s).0 f hf (m s).1)

module _ {R : Sm → Sm → Type 0} {B : Type 0} where
  -- An action that reads the state first may use what the state says.
  pub Steps-read : (f : Sm → M B) → ((s : Sm) → R s (f s s).1) → Steps R (gets (λ s. s) >>= f)
  unfolding ◌>>=◌
  Steps-read f h = record { at = h }

module _ {A : Type 0} {R : Sm → Sm → Type 0} where
  pub Steps-if : (b : Bool) (m n : M A) → Steps R m → Steps R n → Steps R (if b then m else n)
  Steps-if true m n hm hn = hm
  Steps-if false m n hm hn = hn

pub Steps-modify :
    {R : Sm → Sm → Type 0} (f : Sm → Sm) → ((s : Sm) → R s (f s)) → Steps R (modify f)
unfolding modify
Steps-modify f h = record { at = h }
