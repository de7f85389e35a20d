-- ===== src/Backend/Session/Laws.antt =====
-- About the stored session of backend.ts.
use easyclaw.Base.{◌≡◌, ◌≢◌, true, Option, none, some, [], Text}
use easyclaw.Numbers.{Numbers}
use easyclaw.Backend.Json.{Json, obj}
use easyclaw.Backend.Session.{Codec, session_fields}

module _ (n : Numbers) (codec : Codec n) where
  -- A time that is given is a finite number: JSON has no others.
  abbrev pub HasFiniteEnd : Option n.Num → Type 0
  HasFiniteEnd none = Unit
  HasFiniteEnd (some t) = n.is_finite t ≡ true

  -- JSON text is never empty, and that of an object of a text and a finite number is read back as
  -- the object.
  pub record CodecLaws : Type 0 where
    pub parse-stringify :
        (token : Text) (e : Option n.Num)
        → HasFiniteEnd e
        → codec.parse (codec.stringify (obj (session_fields n codec token e)))
          ≡ some (obj (session_fields n codec token e))
    pub stringify_nonempty : (v : Json n.Num) → codec.stringify v ≢ []
