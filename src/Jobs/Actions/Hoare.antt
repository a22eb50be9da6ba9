-- ===== src/Jobs/Actions/Hoare.antt =====
-- What an action guarantees, whether it returns or raises, with one rule for each way to build one.
use vmware_migration_helper.Base.{◌≡◌, refl, Bool, true, false, if◌then◌else◌}
use vmware_migration_helper.Jobs.Model.{Exception}
use vmware_migration_helper.Jobs.Actions.{
  Outcome, ok, raised, ◌>>=◌, try_catch, try_finally, continue, recover, finish_with, pure, raise,
  lift, Act, skip, when,
}

abbrev pub Pred : Type 0 → Type 1
Pred S = S → Type 0

-- `Q` after a return, `E` after an exception
abbrev pub Post : {S A : Type 0} → (A → Pred S) → Pred S → Outcome A × S → Type 0
Post Q E (ok a, w) = Q a w
Post Q E (raised e, w) = E w

pub record Triple {S A : Type 0} (P : Pred S) (m : Act S A) (Q : A → Pred S) (E : Pred S)
    : Type 0 where
  pub at : (w : S) → P w → Post Q E (m w)

-- `m` keeps `P`, whether it returns or raises.
pub record Keeps {S A : Type 0} (P : Pred S) (m : Act S A) : Type 0 where
  pub at : (w : S) → P w → P (m w).1

module _ {S A B : Type 0} where
  continue-Post :
      (r : Outcome A × S) (f : A → Act S B) (Q : A → Pred S) (R : B → Pred S) (E : Pred S)
      → ((a : A) → Triple (Q a) (f a) R E)
      → Post Q E r
      → Post R E (continue r.0 f r.1)
  continue-Post (ok a, w) f Q R E h k = (h a).at w k
  continue-Post (raised e, w) f Q R E h k = k

  pub Triple-bind :
      {P : Pred S} {m : Act S A} {f : A → Act S B} (Q : A → Pred S) {R : B → Pred S} {E : Pred S}
      → Triple P m Q E
      → ((a : A) → Triple (Q a) (f a) R E)
      → Triple P (m >>= f) R E
  unfolding ◌>>=◌
  Triple-bind {m} {f} Q {R} {E} h k = record {
    at = λ w p. continue-Post (m w) f Q R E k (h.at w p);
  }

  continue_keeps :
      (P : Pred S) (r : Outcome A) (w : S) (f : A → Act S B)
      → ((a : A) → Keeps P (f a))
      → P w
      → P (continue r f w).1
  continue_keeps P (ok a) w f h p = (h a).at w p
  continue_keeps P (raised e) w f h p = p

  pub Keeps-bind :
      {P : Pred S} (m : Act S A) (f : A → Act S B)
      → Keeps P m
      → ((a : A) → Keeps P (f a))
      → Keeps P (m >>= f)
  unfolding ◌>>=◌
  Keeps-bind {P} m f h k = record { at = λ w p. continue_keeps P (m w).0 (m w).1 f k (h.at w p) }

module _ {S A : Type 0} where
  recover-Post :
      (handler : Exception → Act S A) (Q : A → Pred S) (E F : Pred S) (r : Outcome A × S)
      → ((e : Exception) → Triple E (handler e) Q F)
      → Post Q E r
      → Post Q F (recover handler r)
  recover-Post handler Q E F (ok a, w) h p = p
  recover-Post handler Q E F (raised e, w) h p = (h e).at w p

  pub Triple-try_catch :
      {P : Pred S} {m : Act S A} {handler : Exception → Act S A} {Q : A → Pred S} (E : Pred S)
      {F : Pred S}
      → Triple P m Q E
      → ((e : Exception) → Triple E (handler e) Q F)
      → Triple P (try_catch m handler) Q F
  unfolding try_catch
  Triple-try_catch {m} {handler} {Q} E {F} h k = record {
    at = λ w p. recover-Post handler Q E F (m w) k (h.at w p);
  }

module _ {S A : Type 0} (P : Pred S) where
  either-Post : (r : Outcome A × S) → P r.1 → Post (λ a. P) P r
  either-Post (ok a, w) p = p
  either-Post (raised e, w) p = p

  keeps_of_post : (r : Outcome A × S) → Post (λ a. P) P r → P r.1
  keeps_of_post (ok a, w) p = p
  keeps_of_post (raised e, w) p = p

  finish_keeps : (r : Outcome A) (q : Outcome (Unit {0}) × S) → P q.1 → P (finish_with r q).1
  finish_keeps r (ok u, w) p = p
  finish_keeps r (raised e, w) p = p

module _ {S A : Type 0} {P : Pred S} where
  pub Triple-Keeps : {m : Act S A} → Keeps P m → Triple P m (λ a. P) P
  Triple-Keeps {m} h = record { at = λ w p. either-Post P (m w) (h.at w p) }

  -- What holds of the state afterwards in either case.
  pub state-Triple :
      {Q : Pred S} {m : Act S A} → ((w : S) → Q w → P (m w).1) → Triple Q m (λ a. P) P
  state-Triple {m} h = record { at = λ w q. either-Post P (m w) (h w q) }

  pub Keeps-Triple : {m : Act S A} → Triple P m (λ a. P) P → Keeps P m
  Keeps-Triple {m} h = record { at = λ w p. keeps_of_post P (m w) (h.at w p) }

  pub Keeps-pure : (a : A) → Keeps P (pure a)
  unfolding pure
  Keeps-pure a = record { at = λ w p. p }

  pub Keeps-raise : (e : Exception) → Keeps P (raise {A = A} e)
  unfolding raise
  Keeps-raise e = record { at = λ w p. p }

  pub Keeps-lift : (o : Outcome A) → Keeps P (lift o)
  unfolding lift
  Keeps-lift o = record { at = λ w p. p }

  recover_keeps :
      (handler : Exception → Act S A) (r : Outcome A × S)
      → ((e : Exception) → Keeps P (handler e))
      → P r.1
      → P (recover handler r).1
  recover_keeps handler (ok a, w) h p = p
  recover_keeps handler (raised e, w) h p = (h e).at w p

  pub Keeps-try_catch :
      (m : Act S A) (handler : Exception → Act S A)
      → Keeps P m
      → ((e : Exception) → Keeps P (handler e))
      → Keeps P (try_catch m handler)
  unfolding try_catch
  Keeps-try_catch m handler h k = record { at = λ w p. recover_keeps handler (m w) k (h.at w p) }

  pub Keeps-try_finally :
      (m : Act S A) (last : Act S (Unit {0}))
      → Keeps P m
      → Keeps P last
      → Keeps P (try_finally m last)
  unfolding try_finally
  Keeps-try_finally m last h k = record {
    at = λ w p. finish_keeps P (m w).0 (last (m w).1) (k.at (m w).1 (h.at w p));
  }

  pub Keeps-if : (b : Bool) (m n : Act S A) → Keeps P m → Keeps P n → Keeps P (if b then m else n)
  Keeps-if true m n h k = h
  Keeps-if false m n h k = k

module _ {S : Type 0} {P : Pred S} where
  pub Keeps-skip : Keeps P skip
  unfolding skip
  Keeps-skip = record { at = λ w p. p }

  pub Keeps-when : (b : Bool) (m : Act S (Unit {0})) → Keeps P m → Keeps P (when b m)
  Keeps-when true m h = h
  Keeps-when false m h = Keeps-skip

pub ruleset keeps_rules = (
  Keeps-bind, Keeps-pure, Keeps-raise, Keeps-lift, Keeps-try_catch, Keeps-try_finally, Keeps-if,
  Keeps-skip, Keeps-when,
)

module _ {S A : Type 0} where
  finally_ok :
      (a : A) (Q : A → Pred S) (E : Pred S) (q : Outcome (Unit {0}) × S)
      → Post (λ u. Q a) E q
      → Post Q E (finish_with (ok a) q)
  finally_ok a Q E (ok u, w) p = p
  finally_ok a Q E (raised e, w) p = p

  finally_raised :
      (e : Exception) (Q : A → Pred S) (E : Pred S) (q : Outcome (Unit {0}) × S)
      → E q.1
      → Post Q E (finish_with (raised e) q)
  finally_raised e Q E (ok u, w) p = p
  finally_raised e Q E (raised x, w) p = p

  finally-Post :
      (r : Outcome A × S) (last : Act S (Unit {0})) (Q : A → Pred S) (E : Pred S)
      → ((a : A) → Triple (Q a) last (λ u. Q a) E)
      → Keeps E last
      → Post Q E r
      → Post Q E (finish_with r.0 (last r.1))
  finally-Post (ok a, w) last Q E h k p = finally_ok a Q E (last w) ((h a).at w p)
  finally-Post (raised e, w) last Q E h k p = finally_raised e Q E (last w) (k.at w p)

  pub Triple-try_finally :
      {P : Pred S} {m : Act S A} {last : Act S (Unit {0})} {Q : A → Pred S} {E : Pred S}
      → Triple P m Q E
      → ((a : A) → Triple (Q a) last (λ u. Q a) E)
      → Keeps E last
      → Triple P (try_finally m last) Q E
  unfolding try_finally
  Triple-try_finally {m} {last} {Q} {E} h k l = record {
    at = λ w p. finally-Post (m w) last Q E k l (h.at w p);
  }

  weaken-Post :
      (Q : A → Pred S) (E F : Pred S) (r : Outcome A × S)
      → ((w : S) → E w → F w)
      → Post Q E r
      → Post Q F r
  weaken-Post Q E F (ok a, w) h p = p
  weaken-Post Q E F (raised e, w) h p = h w p

  pub Triple-weaken :
      {P : Pred S} {m : Act S A} {Q : A → Pred S} (E F : Pred S)
      → ((w : S) → E w → F w)
      → Triple P m Q E
      → Triple P m Q F
  Triple-weaken {m} {Q} E F h k = record { at = λ w p. weaken-Post Q E F (m w) h (k.at w p) }

  to_Post :
      (Q R : A → Pred S) (E : Pred S) (r : Outcome A × S)
      → ((a : A) (w : S) → Q a w → R a w)
      → Post Q E r
      → Post R E r
  to_Post Q R E (ok a, w) h p = h a w p
  to_Post Q R E (raised e, w) h p = p

  pub Triple-to :
      {P : Pred S} {m : Act S A} {Q R : A → Pred S} {E : Pred S}
      → ((a : A) (w : S) → Q a w → R a w)
      → Triple P m Q E
      → Triple P m R E
  Triple-to {m} {Q} {R} {E} h k = record { at = λ w p. to_Post Q R E (m w) h (k.at w p) }

  pub Triple-from :
      {P R : Pred S} {m : Act S A} {Q : A → Pred S} {E : Pred S}
      → ((w : S) → P w → R w)
      → Triple R m Q E
      → Triple P m Q E
  Triple-from h k = record { at = λ w p. k.at w (h w p) }

module _ {S : Type 0} {P E : Pred S} {Q : Unit {0} → Pred S} where
  pub Triple-when :
      (b : Bool) {m : Act S (Unit {0})}
      → ((w : S) → P w → Q tt w)
      → (b ≡ true → Triple P m Q E)
      → Triple P (when b m) Q E
  Triple-when true h k = k refl
  Triple-when false h k = unfold skip in record { at = h }

abbrev pub Always : {S : Type 0} → Pred S
Always w = Unit

-- No exception leaves an action that ends with this after an exception.
abbrev pub Never : {S : Type 0} → Pred S
Never w = ⊥

module _ {S A : Type 0} where
  trivial-Post : (r : Outcome A × S) → Post (λ a. Always) Always r
  trivial-Post (ok a, w) = tt
  trivial-Post (raised e, w) = tt

  -- Nothing is asked of an action, and nothing is known after it.
  pub anything : {P : Pred S} {m : Act S A} → Triple P m (λ a. Always) Always
  anything {m} = record { at = λ w p. trivial-Post (m w) }

  pub after :
      {B : Type 0} {P : Pred S} (m : Act S A) {f : A → Act S B} {R : B → Pred S}
      → ((a : A) → Triple Always (f a) R Always)
      → Triple P (m >>= f) R Always
  after m h = Triple-bind (λ a. Always) anything h
