-- ===== src/Router/Drain/Merging.antt =====
-- The text of a turn, and how the agent cuts it into chunks.
use Prim.Native.String.{◌++◌ as ◌+++◌}
use package.text.Mathlib.TextLemmas.{
  append_assoc as str_append_assoc, append-nil as str_append-nil, nil-append, cons-append,
  append-eq-nil_iff,
}
use mathlib.Core.Bool.{false≢true}
use poe_acp_relay.Base.{
  ℕ, String, ◌≡◌, refl, sym, ap, ◌∙◌, Bool, true, false, ◌&&◌, ◌||◌, List, [], ◌∷◌, ◌++◌, arith,
  ◌==◌, eq_iff, eq-cases, eq-false, ◌≢◌, Bool-cases, inl, inr,
}
use poe_acp_relay.Router.Types.{SinkCall, first_chunk, put_text, put_replace, put_error, put_done}
use poe_acp_relay.Router.Drain.{
  Update, message_chunk, thought_chunk, other_update, TurnDef, ChunkKind, chunk_none, chunk_message,
  chunk_thought, Chunked, replace_char, chunk_prefix, chunk_text, is_thought, put_chunk,
  drain_process_chunk,
}
use poe_acp_relay.Router.Drain.Turns.{turn_puts, turn_output}

-- All that is put, as one text.
unfoldable pub put_body : List SinkCall → String
put_body [] = ""
put_body (put_text t ∷ cs) = t +++ put_body cs
put_body (_ ∷ cs) = put_body cs

pub put_body-append : (xs ys : List SinkCall) → put_body (xs ++ ys) ≡ put_body xs +++ put_body ys
unfolding put_body
put_body-append [] ys = sym (nil-append (put_body ys))
put_body-append (first_chunk ∷ xs) ys = put_body-append xs ys
put_body-append (put_text t ∷ xs) ys =
    ap (λ s. t +++ s) (put_body-append xs ys) ∙ sym (str_append_assoc t _ _)
put_body-append (put_replace t ∷ xs) ys = put_body-append xs ys
put_body-append (put_error t et ∷ xs) ys = put_body-append xs ys
put_body-append (put_done ∷ xs) ys = put_body-append xs ys

-- `ReplaceAll` of a character works on each part of a text by itself.
pub replace_char-append :
    (k : ℕ) (new s t : String)
    → replace_char k new (s +++ t) ≡ replace_char k new s +++ replace_char k new t
unfolding replace_char
replace_char-append k new String.[] t =
    ap (replace_char k new) (nil-append t) ∙ sym (nil-append (replace_char k new t))
replace_char-append k new (String.◌∷◌ c s) t =
    ap (replace_char k new) (cons-append c s t)
    ∙ ground (
      arith,
      replace_char-append k new s t,
      str_append_assoc new (replace_char k new s) (replace_char k new t),
      cons-append c (replace_char k new s) (replace_char k new t),
    )

chunk_text-append :
    (kind : ChunkKind) (s t : String)
    → chunk_text kind (s +++ t) ≡ chunk_text kind s +++ chunk_text kind t
unfolding chunk_text
chunk_text-append chunk_none s t = refl
chunk_text-append chunk_message s t = refl
chunk_text-append chunk_thought s t = replace_char-append 10 "\n> " s t

abbrev IsKind : ChunkKind → Type 0
IsKind k = k ≢ chunk_none

chunk_prefix_same : (k : ChunkKind) → chunk_prefix k k ≡ ""
unfolding chunk_prefix
chunk_prefix_same chunk_none = refl
chunk_prefix_same chunk_message = refl
chunk_prefix_same chunk_thought = refl

-- What a chunk does to the loop: the variables after it and the text that is put.
record Puts (c : Chunked) (first : Bool) (mode : ChunkKind) (body : String) : Type 0 where
  p_first : c.first ≡ first
  p_mode : c.chunk_mode ≡ mode
  p_body : put_body c.puts ≡ body

put_chunk_skip :
    (k : ChunkKind) (t : String) (td : TurnDef) (first : Bool) (mode : ChunkKind)
    → (t == "" || (is_thought k && td.hide_thinking)) ≡ true
    → Puts (put_chunk k t td first mode) first mode ""
unfolding put_chunk put_body
put_chunk_skip k t td first mode h = rw h (record { p_first = refl; p_mode = refl; p_body = refl })

put_chunk_put :
    (k : ChunkKind) (t : String) (td : TurnDef) (first : Bool) (mode : ChunkKind)
    → (t == "" || (is_thought k && td.hide_thinking)) ≡ false
    → Puts (put_chunk k t td first mode) true k (chunk_prefix mode k +++ chunk_text k t)
unfolding put_chunk put_body
put_chunk_put k t td true mode h =
    rw h (record { p_first = refl; p_mode = refl; p_body = str_append-nil _ })
put_chunk_put k t td false mode h =
    rw h (record { p_first = refl; p_mode = refl; p_body = str_append-nil _ })

put_chunk_plain :
    (k : ChunkKind) (t : String) (td : TurnDef)
    → (is_thought k && td.hide_thinking) ≡ false
    → (t == "") ≡ false
    → (t == "" || (is_thought k && td.hide_thinking)) ≡ false
put_chunk_plain k t td h e = rw (e, h)

hidden_skipped :
    (k : ChunkKind) (t : String) (td : TurnDef)
    → (is_thought k && td.hide_thinking) ≡ true
    → (t == "" || (is_thought k && td.hide_thinking)) ≡ true
hidden_skipped k t td h = elim (Bool-cases (t == "")) [ inl e ↦ rw e | inr e ↦ rw (e, h) ]

append-ne-empty : (a b : String) → (a == "") ≡ false → (a +++ b == "") ≡ false
append-ne-empty a b h =
    eq-false (a +++ b) ""
      (λ e. false≢true (sym h ∙ (eq_iff a "").1 ((append-eq-nil_iff {p = a} {q = b}).0 e).0))

-- Two chunks of one kind in a row leave the loop as their concatenation does, and put the same text.
put_chunk-append :
    (k : ChunkKind) (a b : String) (td : TurnDef) (first : Bool) (mode : ChunkKind)
    → Puts
        (put_chunk k (a +++ b) td first mode)
        (put_chunk k b td
          (put_chunk k a td first mode).first
          (put_chunk k a td first mode).chunk_mode).first
        (put_chunk k b td
          (put_chunk k a td first mode).first
          (put_chunk k a td first mode).chunk_mode).chunk_mode
        (put_body (put_chunk k a td first mode).puts
          +++ put_body
              (put_chunk k b td
                (put_chunk k a td first mode).first
                (put_chunk k a td first mode).chunk_mode).puts)
put_chunk-append k a b td first mode = elim (Bool-cases (is_thought k && td.hide_thinking)) [
  | inl hidden ↦
      let whole = put_chunk_skip k (a +++ b) td first mode (hidden_skipped k (a +++ b) td hidden) in
      let left = put_chunk_skip k a td first mode (hidden_skipped k a td hidden) in
      let right = put_chunk_skip k b td s.first s.chunk_mode (hidden_skipped k b td hidden) in
      record {
        p_first = whole.p_first ∙ sym left.p_first ∙ sym right.p_first;
        p_mode = whole.p_mode ∙ sym left.p_mode ∙ sym right.p_mode;
        p_body = cc (whole.p_body, left.p_body, right.p_body, nil-append "");
      }
  | inr plain ↦ elim (eq-cases a "") [
    | inl e ↦
        let same : a +++ b ≡ b = ap (λ x. x +++ b) e ∙ nil-append b in
        let skip = put_chunk_skip k a td first mode (ground (arith, eq_iff a "")) in
        rw same (record {
          p_first = cc (skip.p_first, skip.p_mode);
          p_mode = cc (skip.p_first, skip.p_mode);
          p_body = sym (nil-append _) ∙ cc (skip.p_first, skip.p_mode, skip.p_body);
        })
    | inr na ↦ elim (eq-cases b "") [
      | inl e ↦
          let same : a +++ b ≡ a = ap (λ x. a +++ x) e ∙ str_append-nil a in
          let skip = put_chunk_skip k b td s.first s.chunk_mode (ground (arith, eq_iff b "")) in
          rw same (record {
            p_first = sym skip.p_first;
            p_mode = sym skip.p_mode;
            p_body = sym (str_append-nil _) ∙ ap (λ x. put_body s.puts +++ x) (sym skip.p_body);
          })
      | inr nb ↦
          let nab = append-ne-empty a b na in
          let whole = put_chunk_put k (a +++ b) td first mode (put_chunk_plain k _ td plain nab) in
          let left = put_chunk_put k a td first mode (put_chunk_plain k a td plain na) in
          let right = put_chunk_put k b td s.first s.chunk_mode (put_chunk_plain k b td plain nb) in
          record {
            p_first = whole.p_first ∙ sym right.p_first;
            p_mode = whole.p_mode ∙ sym right.p_mode;
            p_body = cc (
              whole.p_body,
              left.p_body,
              right.p_body,
              left.p_mode,
              chunk_prefix_same k,
              nil-append (chunk_text k b),
              chunk_text-append k a b,
              str_append_assoc (chunk_prefix mode k) (chunk_text k a) (chunk_text k b),
            );
          }
    ]
  ]
]
  where
    s : Chunked
    s = put_chunk k a td first mode

-- One more chunk of a turn, by its kind.
abbrev pub chunk_of : ChunkKind → String → Update
chunk_of chunk_none t = other_update
chunk_of chunk_message t = message_chunk t
chunk_of chunk_thought t = thought_chunk t

puts-append :
    {w : Chunked} (c r : Chunked) (td : TurnDef) (us : List Update)
    → Puts w r.first r.chunk_mode (put_body c.puts +++ put_body r.puts)
    → put_body (w.puts ++ turn_puts td w.first w.chunk_mode us)
      ≡ put_body (c.puts ++ (r.puts ++ turn_puts td r.first r.chunk_mode us))
puts-append {w} c r td us p =
    let later = turn_puts td r.first r.chunk_mode us in
    cc (
      p.p_first,
      p.p_mode,
      p.p_body,
      put_body-append w.puts (turn_puts td w.first w.chunk_mode us),
      put_body-append c.puts (r.puts ++ later),
      put_body-append r.puts later,
      str_append_assoc (put_body c.puts) (put_body r.puts) (put_body later),
    )

turn_puts-append :
    (td : TurnDef) (xs ys : List Update) (k : ChunkKind) (a b : String) (first : Bool)
    (mode : ChunkKind)
    → put_body (turn_puts td first mode (xs ++ chunk_of k (a +++ b) ∷ ys))
      ≡ put_body (turn_puts td first mode (xs ++ chunk_of k a ∷ chunk_of k b ∷ ys))
unfolding turn_puts drain_process_chunk
turn_puts-append td [] ys chunk_none a b first mode = refl
turn_puts-append td [] ys chunk_message a b first mode =
    let c = put_chunk chunk_message a td first mode in
    puts-append c (put_chunk chunk_message b td c.first c.chunk_mode) td ys
      (put_chunk-append chunk_message a b td first mode)
turn_puts-append td [] ys chunk_thought a b first mode =
    let c = put_chunk chunk_thought a td first mode in
    puts-append c (put_chunk chunk_thought b td c.first c.chunk_mode) td ys
      (put_chunk-append chunk_thought a b td first mode)
turn_puts-append td (x ∷ xs) ys k a b first mode =
    let c = drain_process_chunk x td first mode in
    cc (
      put_body-append c.puts (turn_puts td c.first c.chunk_mode (xs ++ chunk_of k (a +++ b) ∷ ys)),
      put_body-append c.puts
          (turn_puts td c.first c.chunk_mode (xs ++ chunk_of k a ∷ chunk_of k b ∷ ys)),
      turn_puts-append td xs ys k a b c.first c.chunk_mode,
    )

-- The text that a turn puts does not depend on how the agent cuts its answer: a message or a thought
-- may come as one chunk or as two, anywhere in the turn, with thoughts hidden or not.
pub turn_output-append :
    (td : TurnDef) (xs ys : List Update) (k : ChunkKind) (a b : String)
    → put_body (turn_output td (xs ++ chunk_of k (a +++ b) ∷ ys))
      ≡ put_body (turn_output td (xs ++ chunk_of k a ∷ chunk_of k b ∷ ys))
unfolding turn_output
turn_output-append td xs ys k a b = turn_puts-append td xs ys k a b false chunk_none
