-- ===== src/Supervisor/Triples.antt =====
-- Rules for what holds after an action, when it returns and when it fails.
use shipmunk_runner.Prelude.{
  ◌≡◌, refl, Bool, true, false, Option, none, some, Result, ok, err, ◌∷◌, if◌then◌else◌,
}
use shipmunk_runner.Supervisor.Calls.{Err, Call, Commit, Trace}
use shipmunk_runner.Supervisor.Action.{
  Guard, World, Action, Done, continue, ◌>>=◌, pure, raise, lift, gets, try, ask, ask_result,
  ask_err, ask_commit, check, set_guard, block, failing, commit_err, handle, recover,
}

abbrev pub After :
    {A : Type 0} → (A → World → Type 0) → (Err → World → Type 0) → Result Err A → World → Type 0
After Q E (ok a) w = Q a w
After Q E (err e) w = E e w

-- From `P`, the action ends in `Q` with its value, or fails in `E`.
pub record Triple {A : Type 0} (P : World → Type 0) (m : Action A) (Q : A → World → Type 0)
    (E : Err → World → Type 0) : Type 0 where
  pub at : (w : World) → P w → After Q E (m w).0 (m w).1

-- `m` keeps `P`, also when it fails.
abbrev pub Keeps : {A : Type 0} → (World → Type 0) → Action A → Type 0
Keeps P m = Triple P m (λ _. P) (λ _. P)

module _ {A : Type 0} (Q : A → World → Type 0) (E : Err → World → Type 0) where
  After-map :
      (R : A → World → Type 0) (F : Err → World → Type 0) (r : Result Err A) (w : World)
      → ((a : A) → Q a w → R a w)
      → ((e : Err) → E e w → F e w)
      → After Q E r w
      → After R F r w
  After-map R F (ok a) w f g h = f a h
  After-map R F (err e) w f g h = g e h

  After-handle :
      (F : Err → World → Type 0) (h : Err → Action A) (r : Result Err A) (w : World)
      → ((e : Err) → Triple (F e) (h e) Q E)
      → After Q F r w
      → After Q E (handle r h w).0 (handle r h w).1
  After-handle F h (ok a) w th x = x
  After-handle F h (err e) w th x = (th e).at w x

  After-result :
      (entry : Result Err A → Call) (r : Result Err A) (w : World)
      → ((a : A) → Q a (record w { trace = entry (ok a) ∷ w.trace }))
      → ((e : Err) → E e (record w { trace = entry (err e) ∷ w.trace }))
      → After Q E r (record w { trace = entry r ∷ w.trace })
  After-result entry (ok a) w f g = f a
  After-result entry (err e) w f g = g e

  After-lift :
      (r : Result Err A) (w : World)
      → ((a : A) → r ≡ ok a → Q a w)
      → ((e : Err) → r ≡ err e → E e w)
      → After Q E r w
  After-lift (ok a) w f x = f a refl
  After-lift (err e) w f x = x e refl

module _ {A B : Type 0} (Q : A → World → Type 0) (R : B → World → Type 0)
    (E : Err → World → Type 0) where
  After-continue :
      (f : A → Action B) (r : Result Err A) (w : World)
      → ((a : A) → Triple (Q a) (f a) R E)
      → After Q E r w
      → After R E (continue r f w).0 (continue r f w).1
  After-continue f (ok a) w tf x = (tf a).at w x
  After-continue f (err e) w tf x = x

module _ (Q : Done → World → Type 0) (E : Err → World → Type 0) where
  After-err :
      (entry : Option Err → Call) (o : Option Err) (w : World)
      → Q tt (record w { trace = entry none ∷ w.trace })
      → ((e : Err) → E e (record w { trace = entry (some e) ∷ w.trace }))
      → After Q E (failing o) (record w { trace = entry o ∷ w.trace })
  After-err entry none w f g = f
  After-err entry (some e) w f g = g e

  After-commit :
      (entry : Commit → Call) (c : Commit) (w : World)
      → Q tt (record w { trace = entry Commit.committed ∷ w.trace })
      → ((e : Err) (written : Bool)
          → E e (record w { trace = entry (Commit.failed e written) ∷ w.trace }))
      → After Q E (failing (commit_err c)) (record w { trace = entry c ∷ w.trace })
  After-commit entry Commit.committed w f g = f
  After-commit entry (Commit.failed e b) w f g = g e b

  After-check :
      (o : Option Err) (w : World) → Q tt w → ((e : Err) → E e w) → After Q E (failing o) w
  After-check none w f g = f
  After-check (some e) w f g = g e

module _ {A : Type 0} {P : World → Type 0} {Q : A → World → Type 0} {E : Err → World → Type 0} where
  pub Triple-pure : (a : A) → ((w : World) → P w → Q a w) → Triple P (pure a) Q E
  unfolding pure
  Triple-pure a h = record { at = h }

  pub Triple-raise : (e : Err) → ((w : World) → P w → E e w) → Triple P (raise {A = A} e) Q E
  unfolding raise
  Triple-raise e h = record { at = h }

  pub Triple-before :
      {P' : World → Type 0} {m : Action A}
      → ((w : World) → P' w → P w)
      → Triple P m Q E
      → Triple P' m Q E
  Triple-before f t = record { at = λ w h. t.at w (f w h) }

  pub Triple-after :
      {R : A → World → Type 0} {F : Err → World → Type 0} {m : Action A}
      → ((a : A) (w : World) → Q a w → R a w)
      → ((e : Err) (w : World) → E e w → F e w)
      → Triple P m Q E
      → Triple P m R F
  Triple-after {R} {F} {m} f g t = record {
    at = λ w h. After-map Q E R F (m w).0 (m w).1 (λ a. f a (m w).1) (λ e. g e (m w).1) (t.at w h);
  }

  pub Triple-if :
      (b : Bool) {m n : Action A}
      → (b ≡ true → Triple P m Q E)
      → (b ≡ false → Triple P n Q E)
      → Triple P (if b then m else n) Q E
  Triple-if true f g = f refl
  Triple-if false f g = g refl

  pub Triple-recover :
      {F : Err → World → Type 0} {m : Action A} {h : Err → Action A}
      → Triple P m Q F
      → ((e : Err) → Triple (F e) (h e) Q E)
      → Triple P (recover m h) Q E
  unfolding recover
  Triple-recover {F} {m} {h} tm th = record {
    at = λ w p. After-handle Q E F h (m w).0 (m w).1 th (tm.at w p);
  }

  -- One call, whatever its answer.
  pub Triple-ask :
      (answer : Trace → A) (entry : A → Call)
      → ((a : A) (w : World) → P w → Q a (record w { trace = entry a ∷ w.trace }))
      → Triple P (ask answer entry) Q E
  unfolding ask
  Triple-ask answer entry f = record { at = λ w p. f (answer w.trace) w p }

  pub Triple-ask_result :
      (answer : Trace → Result Err A) (entry : Result Err A → Call)
      → ((a : A) (w : World) → P w → Q a (record w { trace = entry (ok a) ∷ w.trace }))
      → ((e : Err) (w : World) → P w → E e (record w { trace = entry (err e) ∷ w.trace }))
      → Triple P (ask_result answer entry) Q E
  unfolding ask_result
  Triple-ask_result answer entry f g = record {
    at = λ w p. After-result Q E entry (answer w.trace) w (λ a. f a w p) (λ e. g e w p);
  }

  pub Triple-lift :
      (r : Result Err A)
      → ((a : A) → r ≡ ok a → (w : World) → P w → Q a w)
      → ((e : Err) (w : World) → P w → E e w)
      → Triple P (lift r) Q E
  unfolding lift
  Triple-lift r f g = record { at = λ w p. After-lift Q E r w (λ a e. f a e w p) (λ e _. g e w p) }

module _ {A B : Type 0} {P : World → Type 0} {Q : A → World → Type 0} {R : B → World → Type 0}
    {E : Err → World → Type 0} where
  pub Triple-bind :
      {m : Action A} {f : A → Action B}
      → Triple P m Q E
      → ((a : A) → Triple (Q a) (f a) R E)
      → Triple P (m >>= f) R E
  unfolding ◌>>=◌
  Triple-bind {m} {f} tm tf = record {
    at = λ w p. After-continue Q R E f (m w).0 (m w).1 tf (tm.at w p);
  }

-- A value that is read off the world is known in what follows.
pub Triple-gets :
    {A B : Type 0} {P : World → Type 0} {R : B → World → Type 0} {E : Err → World → Type 0}
    (get : World → A) {f : A → Action B}
    → ((a : A) → Triple (λ w. P w × (get w ≡ a)) (f a) R E)
    → Triple P (gets get >>= f) R E
unfolding gets ◌>>=◌
Triple-gets get tf = record { at = λ w p. (tf (get w)).at w (p, refl) }

-- `try` passes the error on as a value.
pub Triple-try :
    {A B : Type 0} {P : World → Type 0} {Q : A → World → Type 0} {F : Err → World → Type 0}
    {R : B → World → Type 0} {E : Err → World → Type 0} {m : Action A} {f : Result Err A → Action B}
    → Triple P m Q F
    → ((r : Result Err A) → Triple (After Q F r) (f r) R E)
    → Triple P (try m >>= f) R E
unfolding try ◌>>=◌
Triple-try {m} tm tf = record { at = λ w p. (tf (m w).0).at (m w).1 (tm.at w p) }

module _ {P : World → Type 0} {Q : Done → World → Type 0} {E : Err → World → Type 0} where
  pub Triple-ask_err :
      (answer : Trace → Option Err) (entry : Option Err → Call)
      → ((w : World) → P w → Q tt (record w { trace = entry none ∷ w.trace }))
      → ((e : Err) (w : World) → P w → E e (record w { trace = entry (some e) ∷ w.trace }))
      → Triple P (ask_err answer entry) Q E
  unfolding ask_err
  Triple-ask_err answer entry f g = record {
    at = λ w p. After-err Q E entry (answer w.trace) w (f w p) (λ e. g e w p);
  }

  pub Triple-ask_commit :
      (answer : Trace → Commit) (entry : Commit → Call)
      → ((w : World) → P w → Q tt (record w { trace = entry Commit.committed ∷ w.trace }))
      → ((e : Err) (b : Bool) (w : World)
          → P w
          → E e (record w { trace = entry (Commit.failed e b) ∷ w.trace }))
      → Triple P (ask_commit answer entry) Q E
  unfolding ask_commit
  Triple-ask_commit answer entry f g = record {
    at = λ w p. After-commit Q E entry (answer w.trace) w (f w p) (λ e b. g e b w p);
  }

  pub Triple-check :
      (f : World → Option Err)
      → ((w : World) → P w → Q tt w)
      → ((e : Err) (w : World) → P w → E e w)
      → Triple P (check f) Q E
  unfolding check
  Triple-check f g h = record { at = λ w p. After-check Q E (f w) w (g w p) (λ e. h e w p) }

  pub Triple-set_guard :
      (f : Guard → Guard)
      → ((w : World) → P w → Q tt (record w { guard = f w.guard }))
      → Triple P (set_guard f) Q E
  unfolding set_guard
  Triple-set_guard f g = record { at = λ w p. g w p }

  pub Triple-block : ((w : World) → P w → Q tt (record w { blocked = true })) → Triple P block Q E
  unfolding block
  Triple-block f = record { at = f }

  -- Calls whose answer is known.
  pub Triple-sure :
      (answer : Trace → Option Err) (entry : Option Err → Call) (o : Option Err)
      → ((t : Trace) → answer t ≡ o)
      → ((w : World) → P w → After Q E (failing o) (record w { trace = entry o ∷ w.trace }))
      → Triple P (ask_err answer entry) Q E
  unfolding ask_err
  Triple-sure answer entry o h f = record { at = λ w p. rw (h w.trace) (f w p) }

  pub Triple-sure_commit :
      (answer : Trace → Commit) (entry : Commit → Call)
      → ((t : Trace) → answer t ≡ Commit.committed)
      → ((w : World) → P w → Q tt (record w { trace = entry Commit.committed ∷ w.trace }))
      → Triple P (ask_commit answer entry) Q E
  unfolding ask_commit
  Triple-sure_commit answer entry h f = record { at = λ w p. rw (h w.trace) (f w p) }
