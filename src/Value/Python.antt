-- ===== src/Value/Python.antt =====
-- What the program takes from the Python runtime and these files do not define: the Unicode case
-- tables, the printing of numbers and containers, and the reading of a float.
use local_voice_agent.Prelude.{String, Bool, if◌then◌else◌}
use local_voice_agent.Value.Defs.{Value, str, truthy}

pub record Runtime : Type 0 where
  pub casefold : String → String
  pub lower : String → String
  pub print : Value → String
  pub real_is_zero : String → Bool

-- `str(v)`
abbrev pub to_str : Runtime → Value → String
to_str runtime (str s) = s
to_str runtime v = runtime.print v

-- `str(v or "")`
abbrev pub to_str_or_empty : Runtime → Value → String
to_str_or_empty runtime v = if truthy runtime.real_is_zero v then to_str runtime v else ""
