-- ===== src/Rtmp/Client/Answers.antt =====
-- The answers that the client (protocol/rtmp/clientHandler.go, response.go) receives move it along the
-- diagram of its states.
use golive.Common.{arith, ℕ, ◌≡◌, refl, ap, Bool, true, false, Option, none, some, List}
use golive.Common.{◌==◌, if◌then◌else◌, ◌⊎◌, inl, inr}
use golive.Common.Go.{Result, Error, ok, err, panic, stuck, ◌>>=◌, wrong_role}
use golive.Rtmp.Outcome.{done, fail, Leaves, leaves, panics, ends, Leaves-if, Leaves-map}
use golive.Rtmp.Message.{Message}
use mathlib.Core.Path.{transport}
use golive.Rtmp.Status.{connect_send, crtstm_send, crtstrm_success}
use golive.Rtmp.Status.{publish_send, publish_success, stream_begin}
use golive.Rtmp.Status.{play_reset, play_start}
use golive.Rtmp.Client.{ClientRole, play, publish, RtmpClientHandler, Outcome}
use golive.Rtmp.Client.Response.{Outside, handle_connect_response, handle_create_stream_response}
use golive.Rtmp.Client.Response.{handle_publish_response, handle_play_response_reset}
use golive.Rtmp.Client.Response.{handle_play_response_start, read_on_status}
use golive.Amf.{Value}
use golive.Amf.Read.{Rest}
use golive.Amf.Objects.{find}
use golive.Amf.Assert.{asserted, string_of}
use golive.Common.Go.Strings.{ascii, same}
use golive.Rtmp.Client.Handle.{is_play}
use golive.Rtmp.Client.Handle.{
  answered, created, on_play_start, on_play_reset, run_answer, set_status, is_no_stream_id,
}
use golive.Rtmp.Client.Diagram.{Edge, connected, stream_made, reset, playing, publishing}
use golive.Rtmp.Client.Diagram.{here, next, At, arrive}
use golive.Rtmp.Client.Keeps.{
  At-after, Leaves-when, Leaves-status, Leaves-At, on_connected-At, on_created-At,
}

-- The status that the answer to play leads to, or 0.
abbrev Leads : Result ℕ → Type 0
Leads (ok n) = (n ≡ 0) ⊎ (n ≡ play_start)
Leads (err e) = Unit {0}
Leads panic = Unit {0}
Leads stuck = Unit {0}

Leads-bind :
    {A : Type 0} (x : Result A) (f : A → Result ℕ) → ((a : A) → Leads (f a)) → Leads (x >>= f)
Leads-bind (ok a) f g = g a
Leads-bind (err e) f g = tt
Leads-bind panic f g = tt
Leads-bind stuck f g = tt

handle_play_response_start-Leads :
    (out : Outside) (payload : Rest) → Leads (handle_play_response_start out payload)
unfolding handle_play_response_start
handle_play_response_start-Leads out payload =
    Leads-bind (read_on_status out payload) _ (λ objmap. go (find (ascii "code") objmap))
  where
    start : (b : Bool) → Leads (ok (if b then play_start else 0))
    start true = inr refl
    start false = inl refl

    go :
        (x : Option Value)
        → Leads (elim x [
          | some v ↦ asserted (string_of v) >>= λ code.
              ok (if same code (ascii "NetStream.Play.Start") then play_start else 0)
          | none ↦ ok 0
        ])
    go (some v) = Leads-bind (asserted (string_of v)) _ (λ code. start (same code _))
    go none = inl refl

Edge-player : (r : ClientRole) {s t : ℕ} → Edge play s t → is_play r ≡ true → Edge r s t
Edge-player play e h = e
Edge-player publish e h = absurd (cc)

Edge-publisher : (r : ClientRole) {s t : ℕ} → Edge publish s t → is_play r ≡ false → Edge r s t
Edge-publisher play e h = absurd (cc)
Edge-publisher publish e h = e

module _ (out : Outside) (on_write : List ℕ → Option Error) where
  created-At :
      (x : Result ℕ) (h : RtmpClientHandler)
      → h.status ≡ crtstm_send
      → Leaves (At h.role crtstm_send) (created out on_write h x)
  unfolding created
  created-At (ok id) h e =
      Leaves-map _ (λ h1 v. At-after (next here stream_made) h1 v)
        (on_created-At out on_write h.role
          (record h { functional_stream_id = id; status = crtstrm_success })
          (record { role_eq = refl; status_eq = refl }))
  created-At (err e') h e =
      Leaves-if (is_no_stream_id out on_write e')
        (Leaves-At (record h { functional_stream_id = 0 }) e)
        (Leaves-At (record h { functional_stream_id = 0 }) e)
  created-At panic h e = panics
  created-At stuck h e = ends

  Leaves-answered :
      {P : RtmpClientHandler → Type 0} {A : Type 0} (h : RtmpClientHandler) (x : Result A)
      (f : A → Outcome)
      → ((e : Error) → Leaves P (fail h e))
      → ((a : A) → x ≡ ok a → Leaves P (f a))
      → Leaves P (answered out on_write h x f)
  unfolding answered
  Leaves-answered h (ok a) f b g = g a refl
  Leaves-answered h (err e) f b g = b e
  Leaves-answered h panic f b g = panics
  Leaves-answered h stuck f b g = ends

  on_play_start-At :
      (h : RtmpClientHandler) (m : Message)
      → h.status ≡ play_reset
      → Leaves (At h.role play_reset) (on_play_start out on_write h m)
  unfolding on_play_start
  on_play_start-At h m e =
      Leaves-when (is_play h.role)
        (λ role.
          Leaves-answered h (handle_play_response_start out m.payload) _ (λ e'. Leaves-At h e)
            (λ status eq.
              to_status role status
                (transport (ap Leads eq) (handle_play_response_start-Leads out m.payload))))
        (λ role. Leaves-At h e)
    where
      to_status :
          is_play h.role ≡ true
          → (status : ℕ) → (status ≡ 0) ⊎ (status ≡ play_start)
          → Leaves (At h.role play_reset) (if status == 0 then done h else set_status status h)
      to_status role status w =
          Leaves-when (status == 0) (λ z. Leaves-At h e)
            (λ z. leaves (
              arrive (record h { status = status }) (next here (Edge-player h.role playing role))
                (record { role_eq = refl; status_eq = ground (arith, w, z) })))

  on_play_reset-At :
      (h : RtmpClientHandler) (m : Message)
      → h.status ≡ stream_begin
      → Leaves (At h.role stream_begin) (on_play_reset out on_write h m)
  unfolding on_play_reset
  on_play_reset-At h m e =
      Leaves-when (is_play h.role) (λ role. go role (handle_play_response_reset out m.payload))
        (λ role. Leaves-At h e)
    where
      start :
          is_play h.role ≡ true
          → Leaves
              (At h.role stream_begin)
              (on_play_start out on_write (record h { status = play_reset }) m)
      start role =
          Leaves-map _ (λ h1 v. At-after (next here (Edge-player h.role reset role)) h1 v)
            (on_play_start-At (record h { status = play_reset }) m refl)

      go :
          is_play h.role ≡ true
          → (x : Result (Unit {0}))
          → Leaves (At h.role stream_begin) (elim x [
            | ok tt' ↦ on_play_start out on_write (record h { status = play_reset }) m
            | err e ↦ on_play_start out on_write (record h { status = play_reset }) m
            | panic ↦ panic
            | stuck ↦ stuck
          ])
      go role (ok tt') = start role
      go role (err e) = start role
      go role panic = panics
      go role stuck = ends

  on_published-At :
      (h : RtmpClientHandler) (m : Message)
      → h.status ≡ publish_send
      → Leaves (At h.role publish_send) (
          if is_play h.role
          then fail h wrong_role
          else answered out on_write h
              (handle_publish_response out m.payload)
              (λ _. set_status publish_success h))
  on_published-At h m e =
      Leaves-when (is_play h.role) (λ role. Leaves-At h e)
        (λ role.
          Leaves-answered h (handle_publish_response out m.payload) _ (λ e'. Leaves-At h e)
            (λ t eq. leaves (
              arrive (record h { status = publish_success })
                (next here (Edge-publisher h.role publishing role))
                (record { role_eq = refl; status_eq = refl }))))

  pub run_answer-At :
      (h : RtmpClientHandler) (m : Message)
      → Leaves (At h.role h.status) (run_answer out on_write h m)
  unfolding run_answer
  run_answer-At h m =
      Leaves-status h connect_send
        (λ e.
          Leaves-answered h (handle_connect_response out m.payload) _ (λ e'. Leaves-At h e)
            (λ t eq.
              Leaves-map _ (λ h1 v. At-after (next here connected) h1 v)
                (on_connected-At out on_write h)))
        (Leaves-status h crtstm_send
          (λ e. created-At (handle_create_stream_response out m.payload 0) h e)
          (Leaves-status h stream_begin (λ e. on_play_reset-At h m e)
            (Leaves-status h play_reset (λ e. on_play_start-At h m e)
              (Leaves-status h publish_send (λ e. on_published-At h m e)
                (Leaves-if (h.status == publish_success)
                  (Leaves-if (is_play h.role) (Leaves-At h refl) (Leaves-At h refl))
                  (Leaves-At h refl))))))
