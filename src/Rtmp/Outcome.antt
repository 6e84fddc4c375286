-- ===== src/Rtmp/Outcome.antt =====
-- The methods of the handlers of a connection (protocol/rtmp/serverHandler.go, clientHandler.go), which
-- change the handler and return an error.
use golive.Common.{◌≡◌, ap, Bool, true, false, Option, none, some, if◌then◌else◌}
use mathlib.Core.Path.{transport}
use golive.Common.Go.{Result, Error, ok, err, panic, stuck, ◌>>=◌}

-- The handler after the method, and the error that it returns.
abbrev pub Ran : Type 0 → Type 0
Ran H = Result (H × Option Error)

module _ {H : Type 0} where
  abbrev pub done : H → Ran H
  done h = ok (h, none)

  abbrev pub fail : H → Error → Ran H
  fail h e = ok (h, some e)

  -- `if err != nil { return err }` after a call
  infixl 5 ◌>>>◌
  abbrev pub ◌>>>◌ : Ran H → (H → Ran H) → Ran H
  ok (h, none) >>> f = f h
  ok (h, some e) >>> f = ok (h, some e)
  err e >>> f = err e
  panic >>> f = panic
  stuck >>> f = stuck

abbrev handler_of : {H : Type 0} → H → Ran H → H
handler_of h (ok (h', e)) = h'
handler_of h _ = h

-- A property of the handler that a method leaves, whether or not it returns an error.
pub data Leaves {H : Type 0} (P : H → Type 0) : Ran H → Type 0 where
  leaves : {h : H} {e : Option Error} → P h → Leaves P (ok (h, e))
  errs : {e : Error} → Leaves P (err e)
  panics : Leaves P panic
  ends : Leaves P stuck

module _ {H : Type 0} {P Q : H → Type 0} where
  pub Leaves-map : (o : Ran H) → ((h : H) → P h → Q h) → Leaves P o → Leaves Q o
  Leaves-map (ok _) g (leaves {h} p) = leaves (g h p)
  Leaves-map (err _) g errs = errs
  Leaves-map panic g panics = panics
  Leaves-map stuck g ends = ends

  -- Where the handler that goes on has more than `P`.
  pub Leaves-after :
      (o : Ran H) (f : H → Ran H)
      → Leaves P o
      → ((h : H) → P h → Q h)
      → ((h : H) → P h → Leaves Q (f h))
      → Leaves Q (o >>> f)
  Leaves-after (ok (h, none)) f (leaves p) w g = g h p
  Leaves-after (ok (h, some e)) f (leaves p) w g = leaves (w h p)
  Leaves-after (err e) f errs w g = errs
  Leaves-after panic f panics w g = panics
  Leaves-after stuck f ends w g = ends

module _ {H : Type 0} {P : H → Type 0} where
  pub Leaves-then :
      (o : Ran H) (f : H → Ran H)
      → Leaves P o
      → ((h : H) → P h → Leaves P (f h))
      → Leaves P (o >>> f)
  Leaves-then (ok (h, none)) f (leaves p) g = g h p
  Leaves-then (ok (h, some e)) f (leaves p) g = leaves p
  Leaves-then (err e) f errs g = errs
  Leaves-then panic f panics g = panics
  Leaves-then stuck f ends g = ends

  pub Leaves-bind :
      {A : Type 0} (x : Result A) (f : A → Ran H) → ((a : A) → Leaves P (f a)) → Leaves P (x >>= f)
  Leaves-bind (ok a) f g = g a
  Leaves-bind (err e) f g = errs
  Leaves-bind panic f g = panics
  Leaves-bind stuck f g = ends

  pub Leaves-if : (b : Bool) {x y : Ran H} → Leaves P x → Leaves P y → Leaves P (if b then x else y)
  Leaves-if true p q = p
  Leaves-if false p q = q

  pub Leaves-ok : (x : Ran H) {h : H} {e : Option Error} → Leaves P x → x ≡ ok (h, e) → P h
  Leaves-ok (ok (h', e')) {h} (leaves p) eq =
      transport (ap (λ (y : Ran H). P (handler_of h y)) eq) p
  Leaves-ok (err _) errs eq = absurd (cc)
  Leaves-ok panic panics eq = absurd (cc)
  Leaves-ok stuck ends eq = absurd (cc)

  -- A method that returns no error, after another.
  pub done_after :
      {Q : Type 0} {h' : H} (x : Ran H) (f : H → Ran H)
      → Leaves P x
      → ((h : H) → P h → f h ≡ done h' → Q)
      → (x >>> f) ≡ done h'
      → Q
  done_after (ok (h, none)) f (leaves p) w e = w h p e
  done_after (ok (h, some e')) f v w e = absurd (cc)
  done_after (err e') f v w e = absurd (cc)
  done_after panic f v w e = absurd (cc)
  done_after stuck f v w e = absurd (cc)

-- The method returns no error, and the handler that it leaves has the property.
pub data Runs {H : Type 0} (P : H → Type 0) : Ran H → Type 0 where
  runs : {h : H} → P h → Runs P (ok (h, none))

module _ {H : Type 0} {P Q : H → Type 0} where
  pub Runs-then :
      (o : Ran H) (f : H → Ran H) → Runs P o → ((h : H) → P h → Runs Q (f h)) → Runs Q (o >>> f)
  Runs-then (ok (h, none)) f (runs p) g = g h p
  Runs-then (ok (h, some e)) f v g = elim v [ ]
  Runs-then (err e) f v g = elim v [ ]
  Runs-then panic f v g = elim v [ ]
  Runs-then stuck f v g = elim v [ ]

-- The method comes back, with an error or without one, or panics.
pub data Answers {H : Type 0} : Ran H → Type 0 where
  answers : (h : H) (e : Option Error) → Answers (ok (h, e))
  broken : Answers panic

-- The method returns an error and leaves a handler with the property, or it panics.
pub data Fails {H : Type 0} (P : H → Type 0) : Ran H → Type 0 where
  fails_with : {h : H} {e : Error} → P h → Fails P (ok (h, some e))
  crashes : Fails P panic

module _ {H : Type 0} {P : H → Type 0} where
  pub Fails-after :
      (o : Ran H) (f : H → Ran H)
      → Answers o
      → ((h : H) → P h)
      → ((h : H) → Fails P (f h))
      → Fails P (o >>> f)
  Fails-after (ok (h, none)) f (answers h' e) w g = g h
  Fails-after (ok (h, some e)) f (answers h' e') w g = fails_with (w h)
  Fails-after (err e) f v w g = elim v [ ]
  Fails-after panic f broken w g = crashes
  Fails-after stuck f v w g = elim v [ ]
