-- ===== src/Tracer/Thread/Payloads.antt =====
-- src/lib.rs: what `channel_data_handler` does with a payload, and what the queue timer does later.
use mathlib.Core.Path.{subst}
use libtracy.Common.{
  ◌+◌, ◌%◌, ◌^◌, ◌≤◌, ◌<◌, ◌≡◌, ◌⊎◌, refl, sym, ◌∙◌, true, false, List, [], ◌∷◌, ◌++◌, none,
  is_some, length, All, All-append, done, panic, arith, ltb, Bool-cases, inl, inr,
}
use libtracy.Wire.Element.{BufferElement, element_len}
use libtracy.Wire.Header.{header_len}
use libtracy.Wire.Samples.{encoded_all}
use libtracy.Platform.{Platform}
use libtracy.Tracer.Context.{
  TracerContext, append, check_start_queue_timer, check_stop_queue_timer, queue_total_size,
  queue_timeout_ident,
}
use libtracy.Tracer.Context.Timers.{
  IsArmed, IsStopped, check_start_queue_timer-IsArmed, check_stop_queue_timer-IsStopped,
}
use libtracy.Tracer.Sender.{send_trace_data}
use libtracy.Tracer.Sender.Groups.{Sendable, groups, groups_from}
use libtracy.Tracer.Sender.Refinement.{send_bytes, send_groups, send_trace_data-groups}
use libtracy.Tracer.Thread.{channel_data_handler, on_timeout}

snoc-cons :
    (xs : List BufferElement) (x : BufferElement)
    → (front : BufferElement) × (rest : List BufferElement) × (xs ++ x ∷ [] ≡ front ∷ rest)
snoc-cons [] x = (x, [], refl)
snoc-cons (y ∷ ys) x = (y, ys ++ x ∷ [], refl)

groups_from-cons :
    (cur es : List BufferElement)
    → (g : List BufferElement) × (gs : List (List BufferElement)) × (groups_from cur es ≡ g ∷ gs)
unfolding groups_from
groups_from-cons cur [] = (cur, [], refl)
groups_from-cons cur (e ∷ es) =
    elim (ltb (element_len e + length (encoded_all cur) + header_len) queue_total_size)
      as (λ b.
        (g : List BufferElement) × (gs : List (List BufferElement)) × (elim b [
          | true ↦ groups_from (cur ++ e ∷ []) es
          | false ↦ cur ∷ groups_from (e ∷ []) es
        ]
          ≡ g ∷ gs)) [
            | true ↦ groups_from-cons (cur ++ e ∷ []) es
            | false ↦ (cur, groups_from (e ∷ []) es, refl)
          ]

module _ {p : Platform} where
  -- A payload is buffered behind the others and counted. Up to 4096 counted bytes the timer holds a
  -- queue timeout afterwards: the one that was held, or a new one, set with the send interval. Above,
  -- a queue timeout that was held is cancelled in the timer, none is held, and the buffer is sent.
  pub channel_data_handler_cases :
      (ctx : TracerContext p) (element : BufferElement)
      → let counted = (ctx.buffer_occupancy + element_len element) % 2 ^ 64 in
        ((counted ≤ queue_total_size)
          × ((ctx' : TracerContext p) × (channel_data_handler ctx element ≡ done ctx')
              × (ctx'.buffer ≡ ctx.buffer ++ element ∷ [])
              × (ctx'.buffer_occupancy ≡ counted)
              × (is_some ctx'.queue_timeout ≡ true)
              × (ctx'.connection ≡ ctx.connection)
              × IsArmed p ctx.timer ctx.queue_timeout ctx.app_cfg.send_interval queue_timeout_ident
                  ctx'.timer ctx'.queue_timeout))
        ⊎ ((queue_total_size < counted)
            × ((ctx' : TracerContext p) × (channel_data_handler ctx element ≡ send_trace_data ctx')
                × (ctx'.buffer ≡ ctx.buffer ++ element ∷ [])
                × (ctx'.buffer_occupancy ≡ counted)
                × (ctx'.queue_timeout ≡ none)
                × (ctx'.connection ≡ ctx.connection)
                × IsStopped p ctx.timer ctx.queue_timeout ctx'.timer ctx'.queue_timeout))
  unfolding channel_data_handler append check_start_queue_timer check_stop_queue_timer
  channel_data_handler_cases ctx element =
      elim (Bool-cases
        (ltb queue_total_size ((ctx.buffer_occupancy + element_len element) % 2 ^ 64))) [
          | inl big ↦ inr (
            ground arith,
            (
              check_stop_queue_timer (append ctx element),
              ground arith,
              refl,
              refl,
              refl,
              refl,
              check_stop_queue_timer-IsStopped (append ctx element),
            ),
          )
          | inr small ↦ inl (
            ground arith,
            (
              check_start_queue_timer (append ctx element),
              ground arith,
              ground arith,
              ground arith,
              ground arith,
              ground arith,
              check_start_queue_timer-IsArmed (append ctx element),
            ),
          )
        ]

  -- Data that is buffered while there is no client cannot be sent, and trying to panics.
  pub send_trace_data-alone :
      (ctx : TracerContext p) (front : BufferElement) (rest : List BufferElement)
      → ctx.connection ≡ none
      → ctx.buffer ≡ front ∷ rest
      → All Sendable ctx.buffer
      → send_trace_data ctx ≡ panic
  unfolding groups send_groups send_bytes
  send_trace_data-alone ctx front rest hc hb hs =
      let (g, gs, e) = groups_from-cons (front ∷ []) rest in
      send_trace_data-groups ctx hs ∙ (rw (hb, groups, e, send_groups, send_bytes, hc) refl)

  -- The fault: where there is no connection, and what is buffered and the payload fit messages of
  -- their own, a payload ends the thread: `channel_data_handler` panics, or it ends with the queue
  -- timer set and the handler of that timer panics.
  pub late_payload_panics :
      (ctx : TracerContext p) (element : BufferElement)
      → ctx.connection ≡ none
      → All Sendable ctx.buffer
      → Sendable element
      → (channel_data_handler ctx element ≡ panic)
        ⊎ ((ctx' : TracerContext p) × (channel_data_handler ctx element ≡ done ctx')
            × (is_some ctx'.queue_timeout ≡ true)
            × (on_timeout queue_timeout_ident ctx' ≡ panic))
  unfolding on_timeout
  late_payload_panics ctx element hc hs he =
      let all : All Sendable (ctx.buffer ++ element ∷ []) =
        All-append Sendable ctx.buffer (element ∷ []) hs (he, tt) in
      let (front, rest, split) = snoc-cons ctx.buffer element in
      elim (channel_data_handler_cases ctx element) [
        | inl (_, (ctx', e, buffer, _, timer, alone, _)) ↦ inr (
          ctx',
          e,
          timer,
          send_trace_data-alone (record ctx' { queue_timeout = none }) front rest (alone ∙ hc)
              (buffer ∙ split) (subst (All Sendable) (sym buffer) all),
        )
        | inr (_, (ctx', e, buffer, _, _, alone, _)) ↦ inl (
            e
            ∙ send_trace_data-alone ctx' front rest (alone ∙ hc) (buffer ∙ split)
                (subst (All Sendable) (sym buffer) all))
      ]
