-- ===== src/Router/Attachments.antt =====
-- The attachments of internal/router/router.go: from the wire to files and content blocks. The
-- operating system and the network are operations on a state of their own.
pub mod Names
pub mod Download
pub mod Blocks
use Prim.Native.Nat.{◌/◌}
use Prim.Native.String.{◌++◌ as ◌+++◌}
use poe_acp_relay.Base.{
  Result, ok, err, ℕ, suc, String, Bool, true, false, not, ◌&&◌, ◌||◌, Option, none, some, List, [],
  ◌∷◌, ◌++◌, ltb, leb, nat_eq, if◌then◌else◌, ◌==◌, ◌*◌,
}
use poe_acp_relay.Base.Bytes.{Bytes, decimal}
use poe_acp_relay.Base.Paths.{join}
use poe_acp_relay.Poeproto.Requests.{Attachment}
use poe_acp_relay.Router.Types.{ContentBlock, image_block, resource_link, text_resource}
use poe_acp_relay.Router.Attachments.Names.{cap_name, free_name}

-- `MaxInlineImageBytes` and `MaxAttachmentBytes` of the configuration; 0 stands for any number that is
-- not positive.
pub record Limits : Type 0 where
  pub max_inline_image_bytes : ℕ
  pub max_attachment_bytes : ℕ

abbrev pub default_max_inline_image_bytes : ℕ
default_max_inline_image_bytes = 3 * 1024 * 1024

abbrev pub default_max_attachment_bytes : ℕ
default_max_attachment_bytes = 100 * 1024 * 1024

pub max_inline_image_bytes : Limits → ℕ
max_inline_image_bytes cfg =
    if ltb 0 cfg.max_inline_image_bytes
    then cfg.max_inline_image_bytes
    else default_max_inline_image_bytes

pub max_attachment_bytes : Limits → ℕ
max_attachment_bytes cfg =
    if ltb 0 cfg.max_attachment_bytes
    then cfg.max_attachment_bytes
    else default_max_attachment_bytes

-- The library functions that the names and blocks need: the bytes of a text in UTF-8 and the text that
-- bytes are sent as; the first four bytes of a SHA-256 in hexadecimal; `mime.ExtensionsByType`, empty
-- where it fails; base64; and the `file` URL of a path.
pub record Codecs : Type 0 where
  pub bytes : String → Bytes
  pub text : Bytes → String
  pub short_hash : String → String
  pub extensions_by_type : String → List String
  pub base64 : Bytes → String
  pub file_url : String → String

-- The parts of an `http.Response` that are read; the length is the declared one, 0 if it is unknown.
pub record Response : Type 0 where
  pub id : ℕ
  pub status_code : ℕ
  pub content_length : ℕ

-- The outcome of `Root.Mkdir`.
pub data Made : Type 0 where
  made already_there : Made
  unmade : String → Made

-- The calls of the operating system and the network. A root is known by a number, and a call on a
-- file takes the root and the name as the source writes it: which names the system takes for one file
-- is left to the system. `get` is `http.NewRequestWithContext` and `Client.Do`, `create` is `Root.OpenFile`
-- for writing from the start, and `copy` is `io.Copy` of at most so many bytes of the body.
pub record Os (S : Type 0) : Type 0 where
  pub mkdir_all : String → S → Option String × S
  pub open_root : String → S → Result ℕ × S
  pub mkdir : ℕ → String → S → Made × S
  pub open_sub : ℕ → String → S → Result ℕ × S
  pub close_root : ℕ → S → S
  pub get : String → S → Result Response × S
  pub close_body : Response → S → S
  pub create : ℕ → Bytes → S → Option String × S
  pub copy : ℕ → Bytes → ℕ → Response → S → (ℕ × Option String) × S
  pub close : ℕ → Bytes → S → Option String × S
  pub remove : ℕ → Bytes → S → S
  pub read_file : String → S → Result Bytes × S

-- What a download ends with: a file of a size under a name, an error, or a panic.
pub data Fetched : Type 0 where
  fetched : Bytes → ℕ → Fetched
  failed panicked : String → Fetched

abbrev pub attachment_dir_name : String
attachment_dir_name = ".poe-attachments"

-- `fallbackName`
pub fallback_name : Codecs → Attachment → Bytes
fallback_name codecs a =
    let stem = "attachment-" +++ codecs.short_hash a.url in
    codecs.bytes (elim (codecs.extensions_by_type a.content_type) [
      | [] ↦ stem +++ ".bin"
      | e ∷ es ↦ stem +++ e
    ])

-- `preferredName`
pub preferred_name : Codecs → Attachment → Bytes
unfolding fallback_name
preferred_name codecs a =
    if a.name == "" || a.name == "." || a.name == ".."
    then fallback_name codecs a
    else cap_name (codecs.bytes a.name) 200

-- `resourceLinkBlock` and `textResourceBlock` set a MIME type where one is known.
mime_of : String → Option String
mime_of content_type = if content_type == "" then none else some content_type

pub resource_link_block : String → String → String → ContentBlock
unfolding mime_of
resource_link_block name uri content_type = resource_link name uri (mime_of content_type)

pub text_resource_block : String → String → String → ContentBlock
unfolding mime_of
text_resource_block uri text mime = text_resource uri text (mime_of mime)

pub resource_link_block_https : Attachment → ContentBlock
unfolding resource_link_block
resource_link_block_https a =
    resource_link_block (if a.name == "" then a.url else a.name) a.url a.content_type

pub file_resource_link_block : Codecs → String → String → String → ContentBlock
unfolding resource_link_block
file_resource_link_block codecs name path content_type =
    resource_link_block name (codecs.file_url path) content_type

-- `imageInlineAllowedMimeTypes`
pub is_inline_image : String → Bool
is_inline_image mime =
    mime == "image/jpeg" || mime == "image/png" || mime == "image/gif" || mime == "image/webp"
