-- ===== src/Filters/Values.antt =====
-- Cell and filter values, and what ui/src/lib/filters.ts uses of the JavaScript runtime. The
-- runtime's numbers and its conversions are parameters. A text is read by characters, where the
-- runtime counts UTF-16 units.
use secure_collab_app.Prelude.{
  ℕ, zero, suc, Bool, true, false, ◌==◌, String, Option, List, [], ◌∷◌, if◌then◌else◌,
}
use secure_collab_app.Prelude.Int.{ℤ}

-- What an `in_span` value has: `from` and `to` if they are texts, the offsets if they are numbers.
pub record SpanValue : Type 0 where
  pub moving : Bool
  pub from : Option String
  pub to : Option String
  pub from_days : Option ℤ
  pub to_days : Option ℤ

mutual
  pub data Value (D : Type 0) : Type 0 where
    undefined : Value D
    null : Value D
    boolean : Bool → Value D
    number : D → Value D
    text : String → Value D
    array : Values D → Value D
    object : SpanValue → Value D

  pub data Values (D : Type 0) : Type 0 where
    no_values : Values D
    cons : Value D → Values D → Values D

pub record Js (D : Type 0) : Type 0 where
  pub number_of : Value D → D
  pub show_number : D → String
  pub show_array : Values D → String
  pub is_nan : D → Bool
  pub number_eq : D → D → Bool
  pub number_lt : D → D → Bool
  pub lower : String → String
  pub includes : String → String → Bool
  pub text_le : String → String → Bool
  pub date_parse : String → Option ℤ
  pub round_quotient : ℤ → ℕ → ℤ
  pub iso_string : ℤ → String
  pub padded : ℕ → String
  pub clock_year : ℕ
  pub clock_month : ℕ
  pub clock_date : ℕ

-- `slice(0, n)`
abbrev pub slice_to : ℕ → String → String
slice_to zero s = ""
slice_to (suc n) String.[] = ""
slice_to (suc n) (String.◌∷◌ c s) = String.◌∷◌ c (slice_to n s)

abbrev pub is_empty_value : {D : Type 0} → Value D → Bool
is_empty_value undefined = true
is_empty_value null = true
is_empty_value (text s) = s == ""
is_empty_value (array no_values) = true
is_empty_value v = false

module _ {D : Type 0} (js : Js D) where
  -- `String(v)`
  abbrev pub text_of : Value D → String
  text_of undefined = "undefined"
  text_of null = "null"
  text_of (boolean true) = "true"
  text_of (boolean false) = "false"
  text_of (number d) = js.show_number d
  text_of (text s) = s
  text_of (array vs) = js.show_array vs
  text_of (object o) = "[object Object]"

  abbrev pub texts_of : Values D → List String
  texts_of no_values = []
  texts_of (cons v vs) = text_of v ∷ texts_of vs

  abbrev pub to_string_array : Value D → List String
  to_string_array (array vs) = texts_of vs
  to_string_array v = []

  -- `===`; an array or an object of a cell is never the one of a filter.
  abbrev pub strict_eq : Value D → Value D → Bool
  strict_eq undefined undefined = true
  strict_eq null null = true
  strict_eq (boolean true) (boolean b) = b
  strict_eq (boolean false) (boolean b) = if b then false else true
  strict_eq (number d) (number e) = js.number_eq d e
  strict_eq (text s) (text t) = s == t
  strict_eq v w = false

  abbrev pub day_prefix : Value D → String
  day_prefix v = slice_to 10 (text_of v)
