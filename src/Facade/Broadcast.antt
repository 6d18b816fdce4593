-- ===== src/Facade/Broadcast.antt =====
-- src/server/server.cpp: to which sessions a notification goes.
use mcp_cpp.Common.{
  ℕ, Bool, true, false, ◌&&◌, Option, List, [], ◌∷◌, ◌++◌, Text, retain, ◌==◌, if◌then◌else◌, ◌≡◌,
  refl, sym, ap, ◌∙◌, arith, Bool-cases, inl, inr,
}
use mcp_cpp.Session.{Setup, Sess, send_notification}
use mcp_cpp.Server.{is_operating}
use mcp_cpp.Facade.{
  FacadeTypes, Server, has_session, with_session, without_session, attach, detach, Store,
  notify_one, send_notification_if_operating,
}

-- No session is listed twice.
abbrev pub AreApart : List ℕ → Type 0
AreApart [] = Unit
AreApart (a ∷ sessions) = (has_session a sessions ≡ false) × AreApart sessions

has_session-append :
    (j a : ℕ) (sessions : List ℕ)
    → has_session j (sessions ++ a ∷ []) ≡ (if a == j then true else has_session j sessions)
unfolding has_session
has_session-append j a [] = refl
has_session-append j a (b ∷ sessions) = ground (arith, has_session-append j a sessions)

has_session-with_session :
    (j a : ℕ) (sessions : List ℕ)
    → has_session j (with_session a sessions) ≡ (if a == j then true else has_session j sessions)
has_session-with_session j a sessions = elim (Bool-cases (has_session a sessions)) [
  | inl e ↦ ground arith
  | inr e ↦ rw e (has_session-append j a sessions)
]

has_session-without_session :
    (j a : ℕ) (sessions : List ℕ)
    → has_session j (without_session a sessions)
      ≡ (if a == j then false else has_session j sessions)
unfolding has_session retain
has_session-without_session j a [] = ground arith
has_session-without_session j a (b ∷ sessions) =
    ground (arith, has_session-without_session j a sessions)

append-AreApart :
    (a : ℕ) (sessions : List ℕ)
    → AreApart sessions
    → has_session a sessions ≡ false
    → AreApart (sessions ++ a ∷ [])
unfolding has_session
append-AreApart a [] h f = (refl, tt)
append-AreApart a (b ∷ sessions) h f = (
  ground (arith, has_session-append b a sessions, h.0),
  append-AreApart a sessions h.1 (ground arith),
)

with_session-AreApart :
    (a : ℕ) (sessions : List ℕ) → AreApart sessions → AreApart (with_session a sessions)
with_session-AreApart a sessions h = elim (Bool-cases (has_session a sessions)) [
  | inl e ↦ rw e h
  | inr e ↦ rw e (append-AreApart a sessions h e)
]

without_session-AreApart :
    (a : ℕ) (sessions : List ℕ) → AreApart sessions → AreApart (without_session a sessions)
unfolding retain
without_session-AreApart a [] h = tt
without_session-AreApart a (b ∷ sessions) h = elim (Bool-cases (b == a)) [
  | inl e ↦ rw e (without_session-AreApart a sessions h.1)
  | inr e ↦ rw e (
    ground (arith, has_session-without_session b a sessions, h.0),
    without_session-AreApart a sessions h.1,
  )
]

module _ (U : Setup) (method : Text) (params : Option U.lib.Json) where
  -- What a notification does to a session that is told.
  abbrev pub told : Bool → Sess U → Sess U
  told attached s =
      if attached && is_operating s.state then send_notification U method params s else s

  notify_one_self :
      (a j : ℕ) (store : Store U)
      → a ≡ j
      → notify_one U method params a store j ≡ told true (store j)
  notify_one_self a j store e = rw e (elim (Bool-cases (is_operating (store j).state)) [
    | inl k ↦ let self : (j == j) ≡ true = ground arith in rw (k, self) refl
    | inr k ↦ rw k refl
  ])

  notify_one_other :
      (a j : ℕ) (store : Store U)
      → (j == a) ≡ false
      → notify_one U method params a store j ≡ store j
  notify_one_other a j store e = elim (Bool-cases (is_operating (store a).state)) [
    | inl k ↦ rw (k, e) refl
    | inr k ↦ rw k refl
  ]

  notified :
      (sessions : List ℕ) (store : Store U) (j : ℕ)
      → AreApart sessions
      → send_notification_if_operating U method params sessions store j
        ≡ told (has_session j sessions) (store j)
  unfolding send_notification_if_operating has_session
  notified [] store j h = refl
  notified (a ∷ sessions) store j h =
      let rest = notified sessions (notify_one U method params a store) j h.1 in
      elim (Bool-cases (a == j)) [
        | inl e ↦
            let same : a ≡ j = ground arith in
            let absent : has_session j sessions ≡ false = rw (sym same) h.0 in
            rw e (rest ∙ rw absent (notify_one_self a j store same))
        | inr e ↦
            let apart : (j == a) ≡ false = ground arith in
            rw e (rest ∙ ap (told (has_session j sessions)) (notify_one_other a j store apart))
      ]

-- Sessions that come and go.
pub data Attachment : Type 0 where
  attaches : ℕ → Attachment
  detaches : ℕ → Attachment

-- Whether the last that happened to a session is that it was attached.
abbrev pub last_attached : ℕ → Bool → List Attachment → Bool
last_attached j b [] = b
last_attached j b (attaches a ∷ steps) = last_attached j (if a == j then true else b) steps
last_attached j b (detaches a ∷ steps) = last_attached j (if a == j then false else b) steps

module _ {J : Type 0} {T : FacadeTypes} where
  unfoldable pub run_attachments : List Attachment → Server J T → Server J T
  run_attachments [] s = s
  run_attachments (attaches a ∷ steps) s = run_attachments steps (attach a s)
  run_attachments (detaches a ∷ steps) s = run_attachments steps (detach a s)

  has_session-run_attachments :
      (steps : List Attachment) (s : Server J T) (j : ℕ)
      → has_session j (run_attachments steps s).sessions
        ≡ last_attached j (has_session j s.sessions) steps
  unfolding run_attachments attach detach
  has_session-run_attachments [] s j = refl
  has_session-run_attachments (attaches a ∷ steps) s j =
      has_session-run_attachments steps (attach a s) j
      ∙ ap (λ (b : Bool). last_attached j b steps) (has_session-with_session j a s.sessions)
  has_session-run_attachments (detaches a ∷ steps) s j =
      has_session-run_attachments steps (detach a s) j
      ∙ ap (λ (b : Bool). last_attached j b steps) (has_session-without_session j a s.sessions)

  run_attachments-AreApart :
      (steps : List Attachment) (s : Server J T)
      → AreApart s.sessions
      → AreApart (run_attachments steps s).sessions
  unfolding run_attachments attach detach
  run_attachments-AreApart [] s h = h
  run_attachments-AreApart (attaches a ∷ steps) s h =
      run_attachments-AreApart steps (attach a s) (with_session-AreApart a s.sessions h)
  run_attachments-AreApart (detaches a ∷ steps) s h =
      run_attachments-AreApart steps (detach a s) (without_session-AreApart a s.sessions h)

-- However sessions have been attached to a server and detached from it since it had none: a
-- notification is sent to a session, and once, exactly if it operates and was attached last and
-- not detached, and every other session is left as it is.
pub send_notification_if_operating-attached :
    (U : Setup) {T : FacadeTypes} (method : Text) (params : Option U.lib.Json)
    (steps : List Attachment) (s : Server U.lib.Json T) (store : Store U) (j : ℕ)
    → s.sessions ≡ []
    → send_notification_if_operating U method params (run_attachments steps s).sessions store j ≡ (
        if last_attached j false steps && is_operating (store j).state
        then send_notification U method params (store j)
        else store j)
unfolding has_session
send_notification_if_operating-attached U method params steps s store j h =
    notified U method params (run_attachments steps s).sessions store j
      (run_attachments-AreApart steps s (rw h tt))
    ∙ ap (λ (b : Bool). told U method params b (store j))
        (has_session-run_attachments steps s j
          ∙ ap (λ (l : List ℕ). last_attached j (has_session j l) steps) h)
