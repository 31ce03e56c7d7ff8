-- ===== src/Router/TestDisk.antt =====
-- A disk to run the tests with: its state is the names that were created.
use Prim.Native.Char.{code}
use poe_acp_relay.Base.{
  ok, err, String, Bool, false, none, some, List, [], ◌∷◌, any, nat_eq, if◌then◌else◌, ◌==◌,
}
use poe_acp_relay.Base.Bytes.{Bytes, is_used}
use poe_acp_relay.Router.Attachments.{Limits, Codecs, made, Os}
use poe_acp_relay.Router.Prompt.{Environment}
use poe_acp_relay.Router.TestAgent.{no_failure}

abbrev pub codes : String → Bytes
codes String.[] = []
codes (String.◌∷◌ c s) = code c ∷ codes s

abbrev pub small : Limits
small = record { max_inline_image_bytes = 4; max_attachment_bytes = 10 }

abbrev pub plain : Codecs
plain = record {
  bytes = codes;
  text = λ name. if is_used name (codes "a-2.png" ∷ []) then "a-2.png" else "a.png";
  short_hash = λ s. "00c0ffee";
  extensions_by_type = λ t. [];
  base64 = λ content. "AAAA";
  file_url = λ path. path;
}

-- A disk that has room for the names in its list, and refuses a slash where `strict`; each body has
-- three bytes.
abbrev pub disk : Bool → Os (List Bytes)
disk strict = record {
  mkdir_all = λ path s. (none, s);
  open_root = λ path s. (ok 1, s);
  mkdir = λ root name s. (made, s);
  open_sub = λ root name s. (ok 2, s);
  close_root = λ root s. s;
  get = λ url s. (
    if url == "https://poe/gone"
        then err "no route"
        else ok (record { id = 7; status_code = 200; content_length = 3 }),
    s,
  );
  close_body = λ resp s. s;
  create = λ root name s. (
    if strict then (if any (nat_eq b'/') name then some "path escapes" else none) else none,
    name ∷ s,
  );
  copy = λ root name limit resp s. ((3, none), s);
  close = λ root name s. (none, s);
  remove = λ root name s. s;
  read_file = λ path s. (ok (0 ∷ []), s);
}

abbrev pub environment : Environment (List Bytes)
environment = record {
  mkdir = no_failure;
  limits = small;
  codecs = plain;
  os = disk false;
  disk = [];
  quote = λ s. s;
}
