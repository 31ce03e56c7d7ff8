-- ===== src/Router/Prompt/Queued.antt =====
-- What becomes of a submitted turn.
use Prim.Native.String.{◌++◌ as ◌+++◌}
use poe_acp_relay.Base.{
  Result, ok, err, Result-cases, ℕ, String, ◌≡◌, refl, ◌⊎◌, inl, inr, Bool, false, none, some, List,
  [], ◌∷◌, ◌++◌, length, ◌==◌, Bool-cases,
}
use poe_acp_relay.Router.Types.{Options, TurnReq, ContentBlock, put_error, put_done}
use poe_acp_relay.Router.Query.{Turn, latest_user_text}
use poe_acp_relay.Router.Queue.{push}
use poe_acp_relay.Base.Bytes.{Bytes}
use poe_acp_relay.Router.Agent.{Agent}
use poe_acp_relay.Router.Sessions.{Config, SessionState, RouterState, get_or_create, conv_key}
use poe_acp_relay.Router.Prompt.{
  Environment, Submitted, refused, submit_user, prompt_blocks, prompt, panicking, submit_blocks,
}

module _ {A S : Type 0} where
  -- The turn is queued, and the sink is the runner's; or the sink gets an error and then its end; or an
  -- attachment panicked.
  abbrev pub IsAnswered : Submitted A S → Type 0
  IsAnswered s =
      ((req : TurnReq) × (s.queued ≡ some req)
        × (s.calls ≡ [])
        × (s.failure ≡ none)
        × (s.panic ≡ none))
      ⊎ (((e : String) × (s.queued ≡ none)
            × ((shown : String) × (s.calls ≡ put_error shown "user_caused_error" ∷ put_done ∷ []))
            × (s.failure ≡ some e)
            × (s.panic ≡ none))
          ⊎ ((e : String) × (s.queued ≡ none) × (s.calls ≡ []) × (s.panic ≡ some e)))

  refused-IsAnswered :
      (r : RouterState A) (disk : S) (shown failure : String)
      → IsAnswered (refused r disk shown failure)
  unfolding refused
  refused-IsAnswered r disk shown failure = inr (inl (failure, refl, (shown, refl), refl, refl))

  submit_user-IsAnswered :
      (r : RouterState A) (disk : S) (st : SessionState) (req : TurnReq)
      → IsAnswered (submit_user r disk st req)
  unfolding submit_user
  submit_user-IsAnswered r disk st req = elim (Bool-cases (push st.queue req).accepted) [
    | inl e ↦ rw e (inl (req, refl, refl, refl, refl))
    | inr e ↦ rw e (refused-IsAnswered r disk _ _)
  ]

module _ {A S : Type 0} (agent : Agent A) (cfg : Config) (env : Environment S) where
  -- The blocks of a prompt on a session, with the disk after them.
  abbrev blocks_on : SessionState → List Turn → Bool → Result (List ContentBlock) × S
  blocks_on st query seed = prompt_blocks env agent.caps.embedded_context st.cwd query seed

  prompt_got :
      (r : RouterState A) (session id : ℕ) (conv user : String) (query : List Turn) (opts : Options)
      (now : ℕ) (st : SessionState) (seed : Bool)
      → (latest_user_text query == "") ≡ false
      → (get_or_create agent cfg env.mkdir r session (conv_key conv) user (length query) now).0
        ≡ ok (st, seed)
      → prompt agent cfg env r session id conv user query opts now
        ≡ submit_blocks agent cfg env
            (get_or_create agent cfg env.mkdir r session (conv_key conv) user (length query) now).1
            st
            id
            opts
            now
            (blocks_on st query seed)
  unfolding prompt
  prompt_got r session id conv user query opts now st seed text got =
      rw (text, prompt) rw (got, prompt) refl

  prompt_failed :
      (r : RouterState A) (session id : ℕ) (conv user : String) (query : List Turn) (opts : Options)
      (now : ℕ) (e : String)
      → (latest_user_text query == "") ≡ false
      → (get_or_create agent cfg env.mkdir r session (conv_key conv) user (length query) now).0
        ≡ err e
      → prompt agent cfg env r session id conv user query opts now
        ≡ refused
            (get_or_create agent cfg env.mkdir r session (conv_key conv) user (length query) now).1
            env.disk
            ("relay: " +++ e)
            e
  unfolding prompt
  prompt_failed r session id conv user query opts now e text got =
      rw (text, prompt) rw (got, prompt) refl

  submit_blocks-IsAnswered :
      (r : RouterState A) (st : SessionState) (id : ℕ) (opts : Options) (now : ℕ)
      (blocks : Result (List ContentBlock)) (disk : S)
      → IsAnswered (submit_blocks agent cfg env r st id opts now (blocks, disk))
  unfolding submit_blocks panicking
  submit_blocks-IsAnswered r st id opts now (ok bs) disk = submit_user-IsAnswered r disk st _
  submit_blocks-IsAnswered r st id opts now (err e) disk = inr (inr (e, refl, refl, refl))

  -- Every prompt is queued, with no call on its sink yet and no error, or answered at once: its sink
  -- gets an error of the type user_caused_error and then its end, and no other call, nothing is
  -- queued, and the caller gets an error; or an attachment panicked, with nothing queued and no call
  -- on the sink.
  pub prompt-IsAnswered :
      (r : RouterState A) (session id : ℕ) (conv user : String) (query : List Turn) (opts : Options)
      (now : ℕ)
      → IsAnswered (prompt agent cfg env r session id conv user query opts now)
  prompt-IsAnswered r session id conv user query opts now =
      elim (Bool-cases (latest_user_text query == "")) [
        | inl e ↦
            unfold prompt in
            rw e (refused-IsAnswered r env.disk "empty user message" "empty user message")
        | inr e ↦
            let r' =
              (get_or_create agent cfg env.mkdir r session (conv_key conv) user (length query)
                now).1 in
            elim (Result-cases
              (get_or_create agent cfg env.mkdir r session (conv_key conv) user (length query)
                now).0) [
                  | inl ((st, seed), got) ↦
                      rw (prompt_got r session id conv user query opts now st seed e got) (
                        submit_blocks-IsAnswered r' st id opts now (blocks_on st query seed).0
                          (blocks_on st query seed).1)
                  | inr (x, got) ↦
                      rw (prompt_failed r session id conv user query opts now x e got)
                        (refused-IsAnswered r' env.disk ("relay: " +++ x) x)
                ]
      ]
