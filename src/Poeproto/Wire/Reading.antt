-- ===== src/Poeproto/Wire/Reading.antt =====
-- A reader of server-sent events, on what `SSEWriter` writes.
use Prim.Native.Char.{Char, code}
use Prim.Native.String.{◌++◌ as ◌+++◌}
use package.text.Mathlib.TextLemmas.{append_assoc, append-nil, nil-append, cons-append}
use poe_acp_relay.Base.{
  ◌≡◌, refl, sym, ap, ◌∙◌, String, Bool, true, false, not, ◌&&◌, Option, none, some, List, [], ◌∷◌,
  if◌then◌else◌, ◌==◌, nat_eq, map, All, arith, Bool-cases, inl, inr, eq_iff,
}
use poe_acp_relay.Base.Text.{has_prefix, drop_prefix, trim_prefix}
use poe_acp_relay.Poeproto.Sse.{Event, meta, text, replace_response, error, done}
use poe_acp_relay.Poeproto.Wire.{word, flag, Payload, event_name, payload, frame, wire}

-- The fields that a line leaves: the name of the event and its data. Other lines say nothing.
field : String → String × String → String × String
field line (name, content) =
    if has_prefix line "event: "
    then (trim_prefix line "event: ", content)
    else if has_prefix line "data: "
    then (name, trim_prefix line "data: ")
    else (name, content)

abbrev is_blank : String → Bool
is_blank String.[] = true
is_blank (String.◌∷◌ c s) = false

-- What a line break does, with the events that the rest gives: a blank line ends an event.
abbrev ended : String → String × String → List (String × String) → List (String × String)
ended line fields rest = if is_blank line then fields ∷ rest else rest

abbrev next_fields : String → String × String → String × String
next_fields line fields = if is_blank line then ("", "") else field line fields

-- The events of a stream, each with its name and data: `line` is the line so far, and `fields` those
-- of the event so far. An event that is not ended is no event.
unfoldable pub read : String → String × String → String → List (String × String)
unfolding field
read line fields String.[] = []
read line fields (String.◌∷◌ c s) = elim (nat_eq (code c) 10) [
  | true ↦ ended line fields (read "" (next_fields line fields) s)
  | false ↦ read (line +++ String.◌∷◌ c "") fields s
]

-- A text on one line.
abbrev pub is_line : String → Bool
is_line String.[] = true
is_line (String.◌∷◌ c s) = not (nat_eq (code c) 10) && is_line s

read-line :
    (a line : String) (fields : String × String) (s : String)
    → is_line a ≡ true
    → read line fields (a +++ s) ≡ read (line +++ a) fields s
unfolding read
read-line String.[] line fields s h =
    rw (nil-append s) (ap (λ l. read l fields s) (sym (append-nil line)))
read-line (String.◌∷◌ c a) line fields s h =
    let e : nat_eq (code c) 10 ≡ false = ground (arith, h) in
    let k : is_line a ≡ true = ground (arith, h) in
    rw (cons-append c a s, e, read)
      (read-line a (line +++ String.◌∷◌ c "") fields s k
        ∙ ap (λ l. read l fields s)
            (append_assoc line (String.◌∷◌ c "") a ∙ ap (λ t. line +++ t) (one_more c a)))
  where
    one_more : (d : Char) (t : String) → String.◌∷◌ d "" +++ t ≡ String.◌∷◌ d t
    one_more d t = cons-append d "" t ∙ ap (λ u. String.◌∷◌ d u) (nil-append t)

-- The same text, one character at a time.
abbrev glue : String → String → String
glue String.[] t = t
glue (String.◌∷◌ c s) t = String.◌∷◌ c (glue s t)

glue_lem : (s t : String) → s +++ t ≡ glue s t
glue_lem String.[] t = nil-append t
glue_lem (String.◌∷◌ c s) t = cons-append c s t ∙ ap (λ u. String.◌∷◌ c u) (glue_lem s t)

-- One line of a frame.
read_line_end :
    (a : String) (fields : String × String) (s : String)
    → is_line a ≡ true
    → read "" fields (a +++ ("\n" +++ s)) ≡ ended a fields (read "" (next_fields a fields) s)
read_line_end a fields s h = rw (glue_lem "\n" s) (
    read-line a "" fields (glue "\n" s) h
    ∙ (ap (λ l. read l fields (glue "\n" s)) (nil-append a) ∙ (unfold read in refl)))

event_line :
    (a : String) (fields : String × String) → next_fields ("event: " +++ a) fields ≡ (a, fields.1)
unfolding field has_prefix trim_prefix drop_prefix
event_line a fields = rw (glue_lem "event: " a) refl

data_line :
    (a : String) (fields : String × String) → next_fields ("data: " +++ a) fields ≡ (fields.0, a)
unfolding field has_prefix trim_prefix drop_prefix
data_line a fields = rw (glue_lem "data: " a) refl

read_field :
    (a : String) (fields after : String × String) (s : String)
    → is_line a ≡ true
    → is_blank a ≡ false
    → next_fields a fields ≡ after
    → read "" fields (a +++ ("\n" +++ s)) ≡ read "" after s
read_field a fields after s h b e =
    read_line_end a fields s h ∙ (rw b refl ∙ ap (λ f. read "" f s) e)

frame_lines :
    (n m rest : String)
    → ("event: " +++ (n +++ ("\n" +++ ("data: " +++ (m +++ "\n\n"))))) +++ rest
      ≡ ("event: " +++ n) +++ ("\n" +++ (("data: " +++ m) +++ ("\n" +++ ("" +++ ("\n" +++ rest)))))
frame_lines n m rest =
    let two : "\n\n" ≡ "\n" +++ "\n" = refl in rw two simp (append_assoc, nil-append) refl

event_name-is_line : (e : Event) → is_line (event_name e) ≡ true
unfolding event_name
event_name-is_line meta = refl
event_name-is_line (text t) = refl
event_name-is_line (replace_response t) = refl
event_name-is_line (error t et) = refl
event_name-is_line done = refl

module _ (marshal : Payload → String) where
  -- The data of an event stands on one line.
  abbrev OneLine : Event → Type 0
  OneLine e = is_line (marshal (payload e)) ≡ true

  read-frame :
      (e : Event) (rest : String)
      → OneLine e
      → read "" ("", "") (frame marshal e +++ rest)
        ≡ (event_name e, marshal (payload e)) ∷ read "" ("", "") rest
  unfolding frame
  read-frame e rest one_line =
      let n = event_name e in
      let m = marshal (payload e) in
      let first : is_line ("event: " +++ n) ≡ true =
        rw (glue_lem "event: " n) (event_name-is_line e) in
      let second : is_line ("data: " +++ m) ≡ true = rw (glue_lem "data: " m) one_line in
      rw (frame_lines n m rest) (
        read_field ("event: " +++ n) ("", "") (n, "") _ first (rw (glue_lem "event: " n) refl)
          (event_line n ("", ""))
        ∙ (read_field ("data: " +++ m) (n, "") (n, m) _ second (rw (glue_lem "data: " m) refl)
              (data_line m (n, ""))
            ∙ read_line_end "" (n, m) rest refl))

  -- What is read from the body are the names and the data of the events, in order.
  read-wire :
      (es : List Event)
      → All OneLine es
      → read "" ("", "") (wire marshal es) ≡ map (λ e. (event_name e, marshal (payload e))) es
  unfolding wire
  read-wire [] _ = unfold read in refl
  read-wire (e ∷ es) (h, hs) =
      read-frame e (wire marshal es) h
      ∙ ap (λ l. (event_name e, marshal (payload e)) ∷ l) (read-wire es hs)

-- The text of a payload under a key, "" where there is none.
unfoldable pub word_at : String → Payload → String
word_at k [] = ""
word_at k ((j, word t) ∷ p) = if j == k then t else word_at k p
word_at k ((j, flag b) ∷ p) = word_at k p

-- What a client makes of an event by its name, with the payload that is in its data.
unfoldable pub parse_event : String → Payload → Option Event
unfolding word_at
parse_event name p =
    if name == "meta"
    then some meta
    else if name == "text"
    then some (text (word_at "text" p))
    else if name == "replace_response"
    then some (replace_response (word_at "text" p))
    else if name == "error"
    then some (error (word_at "text" p) (word_at "error_type" p))
    else if name == "done"
    then some done
    else none

parse_event-event_name : (e : Event) → parse_event (event_name e) (payload e) ≡ some e
unfolding parse_event event_name payload word_at
parse_event-event_name meta = refl
parse_event-event_name (text t) = refl
parse_event-event_name (replace_response t) = refl
parse_event-event_name (error t et) = elim (Bool-cases (et == "")) [
  | inl e ↦ rw e (ap (λ x. some (error t x)) (sym ((eq_iff et "").0 e)))
  | inr e ↦ rw e refl
]
parse_event-event_name done = refl

-- A client of the stream: the events that it reads in a body.
unfoldable pub read_events : (String → Payload) → String → List (Option Event)
read_events unmarshal body =
    map (λ (p : String × String). parse_event p.0 (unmarshal p.1)) (read "" ("", "") body)

-- What a JSON encoder and its decoder do with the payload of an event: a text with no line break, which
-- is read back.
abbrev pub IsCoded : (Payload → String) → (String → Payload) → Event → Type 0
IsCoded marshal unmarshal e =
    (is_line (marshal (payload e)) ≡ true) × (unmarshal (marshal (payload e)) ≡ payload e)

coded_lines :
    (marshal : Payload → String) (unmarshal : String → Payload) (es : List Event)
    → All (IsCoded marshal unmarshal) es
    → All (OneLine marshal) es
coded_lines marshal unmarshal [] _ = tt
coded_lines marshal unmarshal (e ∷ es) ((h, _), hs) = (h, coded_lines marshal unmarshal es hs)

coded_events :
    (marshal : Payload → String) (unmarshal : String → Payload) (es : List Event)
    → All (IsCoded marshal unmarshal) es
    → map
        (λ (p : String × String). parse_event p.0 (unmarshal p.1))
        (map (λ e. (event_name e, marshal (payload e))) es)
      ≡ map some es
coded_events marshal unmarshal [] _ = refl
coded_events marshal unmarshal (e ∷ es) ((_, undo), hs) =
    rw (undo, coded_events marshal unmarshal es hs, parse_event-event_name e) refl

-- Where the payloads of the events are encoded with no line break and decoded again, a client reads
-- in the body exactly the events that were written, in order, whatever texts they carry.
pub read_events-wire :
    (marshal : Payload → String) (unmarshal : String → Payload) (es : List Event)
    → All (IsCoded marshal unmarshal) es
    → read_events unmarshal (wire marshal es) ≡ map some es
unfolding read_events
read_events-wire marshal unmarshal es coded =
    ap (map (λ (p : String × String). parse_event p.0 (unmarshal p.1)))
      (read-wire marshal es (coded_lines marshal unmarshal es coded))
    ∙ coded_events marshal unmarshal es coded
