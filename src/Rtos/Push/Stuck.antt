-- ===== src/Rtos/Push/Stuck.antt =====
-- Where the push service of the RTOS client can do nothing any more.
use parse_embedded_sdks.Base.{
  ℕ, ◌≡◌, refl, ap, ap₂, ◌∙◌, Bool, true, false, some, List, [], ◌∷◌, pos, if◌then◌else◌,
}
use parse_embedded_sdks.Cc3200.Socket.{SocketCall, Connecting, socket_ssl_connect}
use parse_embedded_sdks.Rtos.Installation.{Device, World, get_installation}
use parse_embedded_sdks.Rtos.Push.{
  PushClient, PushEvent, process_next, looping, PushInput, run_push_rounds, done, preceded_by,
  returned, then_loop, goes_on,
}
use parse_embedded_sdks.Rtos.Push.Start.{
  Started, start_push_service, after_installation, after_socket_connect,
}

process_next-zero :
    (i : PushInput) (c : PushClient) → c.socket_handle ≡ pos 0 → process_next i c ≡ done c [] false
unfolding process_next
process_next-zero i c h = rw h

pub run_push_rounds-step :
    (i : PushInput) (inputs : List PushInput) (c c' : PushClient) (events : List PushEvent)
    (more : Bool)
    → goes_on c.socket_handle ≡ true
    → process_next i c ≡ done c' events more
    → run_push_rounds (i ∷ inputs) c ≡ preceded_by events (run_push_rounds inputs c')
unfolding run_push_rounds
run_push_rounds-step i inputs c c' events more h k =
    ap₂ (λ t o. if t then then_loop o (run_push_rounds inputs) else returned c []) h k

pub run_push_rounds-zero :
    (inputs : List PushInput) (c : PushClient)
    → c.socket_handle ≡ pos 0
    → run_push_rounds inputs c ≡ looping c []
unfolding run_push_rounds
run_push_rounds-zero [] c h = ap (λ u. if goes_on u then looping c [] else returned c []) h
run_push_rounds-zero (i ∷ inputs) c h =
    run_push_rounds-step i inputs c c [] false (ap goes_on h) (process_next-zero i c h)
    ∙ ap (preceded_by []) (run_push_rounds-zero inputs c h)

-- Let the board give the service the socket 0, and let the request for the installation and the
-- first `send` succeed. Then the start succeeds and returns the number of bytes that `send` gave, and
-- the loop behind it goes round without an event, which is a ping, a call of the callback or a saved
-- state, and leaves the client and its buffer as they are, however many rounds there are and whatever
-- the board answers.
pub start_push_service-run_push_rounds :
    (w : World) (a : Connecting) (n : ℕ) (c : PushClient) (d : Device) (calls : List SocketCall)
    (inputs : List PushInput)
    → get_installation w c.device ≡ some d
    → socket_ssl_connect a ≡ (pos 0, calls)
    → (c' : PushClient) × (events : List PushEvent) × (start_push_service w a (pos n) c
        ≡ some (pos n, c', events))
      × (run_push_rounds inputs c' ≡ looping c' [])
unfolding start_push_service
start_push_service-run_push_rounds w a n c d calls inputs h k =
    let started : Started = after_socket_connect (pos n) (record c { device = d }) (pos 0, calls) in
    (
      started.1,
      started.2,
      ap (after_installation a (pos n) c) h
          ∙ ap (λ r. some (after_socket_connect (pos n) (record c { device = d }) r)) k,
      run_push_rounds-zero inputs started.1 refl,
    )
