-- ===== src/Config.antt =====
-- internal/config/config.go: the configuration file, behind the JSON decoder.
pub mod Valid
use Prim.Native.String.{◌++◌ as ◌+++◌}
use poe_acp_relay.Base.{Result, ok, err, String, Bool, true, false, none}
use poe_acp_relay.Paramctl.{Defaults, validate}

-- `Config`
pub record FileConfig : Type 0 where
  pub bot_name : String
  pub defaults : Defaults
  pub profile : String

abbrev pub empty_config : FileConfig
empty_config = record {
  bot_name = "";
  defaults = record { model = ""; thinking = ""; hide_thinking = none };
  profile = "";
}

-- What `os.Open` and a read of the file give.
pub data Opened : Type 0 where
  missing : Opened
  unreadable : String → Opened
  opened : String → Opened

-- `Load`, with whether there is a file; `decode` stands for the decoder that refuses unknown keys, and
-- `quote` for the verb `%q`.
unfoldable pub load :
    (String → String) → (String → Result FileConfig) → String → Opened → Result (FileConfig × Bool)
load quote decode path missing = ok (empty_config, false)
load quote decode path (unreadable e) = err ("open config " +++ (path +++ (": " +++ e)))
load quote decode path (opened text) = elim (decode text) [
  | err e ↦ err ("parse config " +++ (path +++ (": " +++ e)))
  | ok cfg ↦ elim (validate quote cfg.defaults) [
    | err e ↦ err ("validate config " +++ (path +++ (": " +++ e)))
    | ok _ ↦ ok (cfg, true)
  ]
]
