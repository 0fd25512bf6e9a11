-- ===== src/Cmd/Flags/Reads.antt =====
-- How the words of a command line are read as flags, one after the other.
use cita_node_operator.Base.{
  String, ◌≡◌, refl, ◌∙◌, Bool, true, Option, none, some, List, [], ◌∷◌, Dict,
}
use cita_node_operator.Base.{lookup, Result, ok}
use cita_node_operator.Base.Int.{ℤ, IsInt64}
use cita_node_operator.Base.Text.Decimal.{format_int}
use cita_node_operator.Cmd.Flags.{
  Value, text, number, on_off, CobraLaws, Invocation, subcommands, invocation, Runs,
}

-- What kind of flag has been declared.
abbrev IsText : Option Value → Type 0
IsText (some (text _)) = Unit
IsText _ = ⊥

abbrev IsNumber : Option Value → Type 0
IsNumber (some (number _)) = Unit
IsNumber _ = ⊥

abbrev IsSwitch : Option Value → Type 0
IsSwitch (some (on_off _)) = Unit
IsSwitch _ = ⊥

text_there : (o : Option Value) → IsText o → (old : String) × (o ≡ some (text old))
text_there (some (text old)) h = (old, refl)
text_there none h = elim h [ ]
text_there (some (number _)) h = elim h [ ]
text_there (some (on_off _)) h = elim h [ ]

number_there : (o : Option Value) → IsNumber o → (old : ℤ) × (o ≡ some (number old))
number_there (some (number old)) h = (old, refl)
number_there none h = elim h [ ]
number_there (some (text _)) h = elim h [ ]
number_there (some (on_off _)) h = elim h [ ]

on_off_there : (o : Option Value) → IsSwitch o → (old : Bool) × (o ≡ some (on_off old))
on_off_there (some (on_off old)) h = (old, refl)
on_off_there none h = elim h [ ]
on_off_there (some (text _)) h = elim h [ ]
on_off_there (some (number _)) h = elim h [ ]

module _ {parse : Dict Value → List String → Result (Dict Value)} (L : CobraLaws parse) where
  -- With the values so far, the words that are left run what is told.
  pub record Reads (run : Dict Value → Invocation) (i : Invocation) (values : Dict Value)
      (words : List String) : Type 0 where
    out : Dict Value
    read : parse values words ≡ ok out
    result : run out ≡ i

  module _ {run : Dict Value → Invocation} {i : Invocation} {values : Dict Value} where
    pub read_end : run values ≡ i → Reads run i values []
    read_end e = record { out = values; read = L.end_law; result = e }

    after :
        {next : Dict Value} {words rest : List String}
        → parse values words ≡ parse next rest
        → Reads run i next rest
        → Reads run i values words
    after e r = record { out = r.out; read = e ∙ r.read; result = r.result }

    pub read_text :
        {name value : String} {words : List String}
        → IsText (lookup name values)
        → Reads run i ((name, text value) ∷ values) words
        → Reads run i values (name ∷ value ∷ words)
    read_text {name = name} known r = after (L.text_law (text_there (lookup name values) known).1) r

    pub read_number :
        {name : String} {n : ℤ} {words : List String}
        → IsNumber (lookup name values)
        → IsInt64 n
        → Reads run i ((name, number n) ∷ values) words
        → Reads run i values (name ∷ format_int n ∷ words)
    read_number {name = name} {n = n} known range r =
        after (L.number_law (number_there (lookup name values) known).1 range) r

    pub read_switch :
        {name : String} {words : List String}
        → IsSwitch (lookup name values)
        → Reads run i ((name, on_off true) ∷ values) words
        → Reads run i values (name ∷ words)
    read_switch {name = name} known r =
        after (L.on_off_law (on_off_there (lookup name values) known).1) r

  pub invocation_lem :
      (name : String) {flags : Dict Value} {run : Dict Value → Invocation} {words : List String}
      {i : Invocation}
      → lookup name subcommands ≡ some (flags, run)
      → Reads run i flags words
      → Runs parse (name ∷ words) i
  unfolding invocation
  invocation_lem name known r = rw (known, r.read, r.result) refl
