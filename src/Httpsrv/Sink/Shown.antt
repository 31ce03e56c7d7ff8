-- ===== src/Httpsrv/Sink/Shown.antt =====
-- What the reader of a stream sees: Poe's rendering of the events, and what each write adds to it.
use Prim.Native.String.{◌++◌ as ◌+++◌}
use package.text.Mathlib.TextLemmas.{append-nil}
use poe_acp_relay.Base.{
  ℕ, String, ◌≡◌, refl, Bool, true, false, List, [], ◌∷◌, ◌++◌, arith, inl, inr, eq-cases,
}
use poe_acp_relay.Poeproto.Sse.{
  SseWriter, Event, meta, text, replace_response, error, done, event, write_text, write_replace,
  write_error, write_done,
}

-- Poe's renderer: `text` appends to the body, `replace_response` overwrites it, the errors pile up,
-- and `done` ends the answer.
pub record View : Type 0 where
  pub body : String
  pub errors : List (String × String)
  pub finished : Bool

unfoldable pub show : View → Event → View
show v meta = v
show v (text t) = record v { body = v.body +++ t }
show v (replace_response t) = record v { body = t }
show v (error t et) = record v { errors = v.errors ++ (t, et) ∷ [] }
show v done = record v { finished = true }

unfoldable pub render_from : View → List Event → View
render_from v [] = v
render_from v (e ∷ es) = render_from (show v e) es

unfoldable pub render : List Event → View
render es = render_from (record { body = ""; errors = []; finished = false }) es

render_from-append :
    (v : View) (es : List Event) (e : Event)
    → render_from v (es ++ e ∷ []) ≡ show (render_from v es) e
unfolding render_from
render_from-append v [] e = refl
render_from-append v (x ∷ es) e = render_from-append (show v x) es e

pub render-append : (es : List Event) (e : Event) → render (es ++ e ∷ []) ≡ show (render es) e
unfolding render
render-append es e = render_from-append _ es e

abbrev pub shown : SseWriter → View
shown w = render w.sent

-- While the connection holds, a write on an open stream shows its event.
module _ (io : ℕ → Bool) (up : (k : ℕ) → io k ≡ true) (w : SseWriter) where
  pub shown-event :
      (e : Event)
      → w.closed ≡ false
      → (shown (event io w e).0 ≡ show (shown w) e) × ((event io w e).0.closed ≡ false)
  unfolding event
  shown-event e h =
      (ground (arith, up w.writes, render-append w.sent e), ground (arith, up w.writes))

  pub shown-text :
      (t : String)
      → w.closed ≡ false
      → (shown (write_text io w t).0 ≡ show (shown w) (text t))
        × ((write_text io w t).0.closed ≡ false)
  unfolding write_text show
  shown-text t h = elim (eq-cases t "") [
    | inl e ↦ rw (e, append-nil (shown w).body) (refl, h)
    | inr e ↦ rw e (unfold show in shown-event (text t) h)
  ]

  pub shown-replace :
      (t : String)
      → w.closed ≡ false
      → (shown (write_replace io w t).0 ≡ show (shown w) (replace_response t))
        × ((write_replace io w t).0.closed ≡ false)
  unfolding write_replace
  shown-replace t = shown-event (replace_response t)

  pub shown-error :
      (t et : String)
      → w.closed ≡ false
      → (shown (write_error io w t et).0 ≡ show (shown w) (error t et))
        × ((write_error io w t et).0.closed ≡ false)
  unfolding write_error
  shown-error t et = shown-event (error t et)

  pub shown-done : w.closed ≡ false → shown (write_done io w).0 ≡ show (shown w) done
  unfolding write_done
  shown-done h = (shown-event done h).0
