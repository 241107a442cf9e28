-- ===== src/Config/Options.antt =====
-- The options of kdumptool/configuration.cc, and `Configuration::readCmdLine`.
use kdump.Prelude.{
  Bool, ◌||◌, not, List, [], ◌∷◌, Option, Bytes, codes, Result, ok, ◌>>=◌, if◌then◌else◌, map,
  equal,
}
use kdump.Prelude.Int.{ℤ}
use kdump.KString.Number.{number2string, extract_int}
use kdump.Url.Parser.{tolower}
use kdump.Config.KernelParser.{Variables, ConfigError, add_variable, get_value, parse}

-- StringConfigOption, IntConfigOption, BoolConfigOption
pub data Value : Type 0 where
  string_value : Bytes → Value
  int_value : ℤ → Value
  bool_value : Bool → Value

-- A ConfigOption: its name and its value.
pub record StoredOption : Type 0 where
  pub name : Bytes
  pub value : Value

unfoldable pub value_as_string : Value → Bytes
unfolding number2string
value_as_string (string_value s) = s
value_as_string (int_value n) = number2string n
value_as_string (bool_value b) = if b then codes "yes" else codes "no"

unfoldable pub update_value : Value → Bytes → Value
unfolding extract_int equal
update_value (string_value s) text = string_value text
update_value (int_value n) text = int_value (extract_int n text)
update_value (bool_value b) text =
    let val = map tolower text in
    bool_value (not (equal val (codes "0") || equal val (codes "false") || equal val (codes "no")))

-- The two loops: the options' values are the defaults of the variables, which are the new values.
unfoldable pub add_variables : List StoredOption → Variables → Variables
unfolding add_variable value_as_string
add_variables [] m = m
add_variables (opt ∷ opts) m =
    add_variables opts (add_variable opt.name (value_as_string opt.value) m)

unfoldable pub update_options :
    List StoredOption → Variables → Result ConfigError (List StoredOption)
unfolding get_value update_value
update_options [] m = ok []
update_options (opt ∷ opts) m = get_value opt.name m >>= (λ text.
    update_options opts m
    >>= (λ rest. ok (record opt { value = update_value opt.value text } ∷ rest)))

unfoldable pub read_cmdline :
    Bytes → Option Bytes → List StoredOption → Result ConfigError (List StoredOption)
unfolding parse add_variables update_options
read_cmdline filename file opts =
    parse filename file (add_variables opts []) >>= (λ m. update_options opts m)
