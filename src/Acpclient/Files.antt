-- ===== src/Acpclient/Files.antt =====
-- The file calls that an agent makes, of internal/acpclient/agent.go: `readTextFile`, with its window of
-- lines, and `writeTextFile`.
pub mod Window
use Prim.Native.Nat.{◌^◌}
use Prim.Native.String.{◌++◌ as ◌+++◌}
use poe_acp_relay.Base.{
  Result, ok, err, ℕ, ◌+◌, ◌-◌, ◌%◌, ◌&&◌, String, Bool, true, false, Option, none, some, List, [],
  ◌∷◌, length, take, drop, ltb, leb, if◌then◌else◌,
}
use poe_acp_relay.Base.Paths.{is_rooted, split_char, join_text, dir_name}

-- `acp.ReadTextFileRequest`; 0 stands for a number that is not positive.
pub record ReadRequest : Type 0 where
  pub path : String
  pub line : Option ℕ
  pub limit : Option ℕ

pub record WriteRequest : Type 0 where
  pub path : String
  pub content : String

-- The first line of the window, counted from 0.
pub window_start : Option ℕ → ℕ → ℕ
window_start none n = 0
window_start (some line) n = if ltb 0 line then if ltb n (line - 1) then n else line - 1 else 0

-- An `int` of 64 bits: a number, or the negative of one.
pub data Int64 : Type 0 where
  pos neg : ℕ → Int64

-- What is left of a sum in 64 bits, in two's complement.
pub wrap : ℕ → Int64
wrap n = let low = n % 2 ^ 64 in if ltb low (2 ^ 63) then pos low else neg (2 ^ 64 - low)

-- `end < n` where the length of a list is compared.
pub less : Int64 → ℕ → Bool
less (pos end) n = ltb end n
less (neg k) n = true

-- The end of the window.
pub window_end : ℕ → Option ℕ → ℕ → Int64
unfolding wrap less
window_end start none n = pos n
window_end start (some limit) n =
    if ltb 0 limit && less (wrap (start + limit)) n then wrap (start + limit) else pos n

-- `lines[start:end]`, none where the slice panics: the start is not behind the end, and neither is out
-- of range.
pub slice : ℕ → Int64 → List String → Option (List String)
slice start (neg k) lines = none
slice start (pos end) lines =
    if leb start end && leb end (length lines)
    then some (take (end - start) (drop start lines))
    else none

pub window : Option ℕ → Option ℕ → List String → Option (List String)
unfolding window_start window_end slice
window line limit lines =
    let start = window_start line (length lines) in
    slice start (window_end start limit (length lines)) lines

-- How a file call ends: with a value, with an error, or in a panic.
pub data Reply (A : Type 0) : Type 0 where
  replied : A → Reply A
  refused : String → Reply A
  panicked : Reply A

windowed : Option ℕ → Option ℕ → String → Reply String
unfolding window
windowed none none content = replied content
windowed line limit content = elim (window line limit (split_char 10 content)) [
  | none ↦ panicked
  | some lines ↦ replied (join_text "\n" lines)
]

-- `readTextFile`; `read_file` stands for `os.ReadFile`.
unfoldable pub read_text_file : (String → Result String) → ReadRequest → Reply String
unfolding windowed split_char join_text
read_text_file read_file req =
    if is_rooted req.path
    then elim (read_file req.path) [
      | err e ↦ refused e
      | ok content ↦ windowed req.line req.limit content
    ]
    else refused ("path must be absolute: " +++ req.path)

-- `writeTextFile`; the two calls of the disk are on a state of its own.
pub write_text_file :
    {S : Type 0}
    → (String → S → Option String × S)
    → (String → String → S → Option String × S)
    → WriteRequest
    → S
    → Reply (Unit {0}) × S
write_text_file mkdir_all write_file req s =
    if is_rooted req.path
    then (let (made, s1) = mkdir_all (dir_name req.path) s in
        elim made [
          | some e ↦ (refused e, s1)
          | none ↦
              let (written, s2) = write_file req.path req.content s1 in
              (elim written [ some e ↦ refused e | none ↦ replied tt ], s2)
        ])
    else (refused ("path must be absolute: " +++ req.path), s)
