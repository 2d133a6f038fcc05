-- ===== src/Policy/Platform.antt =====
-- What the policy engine takes from the platform that it is compiled for: `cfg!(windows)`, and
-- `str::to_lowercase`, whose Unicode tables belong to the standard library.
use agentic_software_factory.Prelude.{Bool, true, false, map, Str, to_ascii_lowercase}

pub record Platform : Type 0 where
  pub windows : Bool
  pub to_lowercase : Str → Str

-- Two platforms for the examples: both lower the ASCII letters alone.
abbrev pub unix : Platform
unix = record { windows = false; to_lowercase = map to_ascii_lowercase }

abbrev pub windows_nt : Platform
windows_nt = record { windows = true; to_lowercase = map to_ascii_lowercase }
