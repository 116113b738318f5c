-- ===== src/Tracer/Beacon/Text.antt =====
-- src/udp_beacon.rs: the text of a beacon is a JSON object.
use libtracy.Common.{ℕ, ◌<◌, ◌^◌, ◌≡◌, refl, List, [], ◌∷◌, ◌++◌, some, All, arith}
use libtracy.Text.Decimal.{codes, decimal}
use libtracy.Platform.{Platform}
use libtracy.Tracer.Context.{TracerContext}
use libtracy.Tracer.Beacon.{update_interval, server_version, protocoll_version, json_text}
use libtracy.Tracer.Beacon.Json.{
  Value, number, text, is_digit, take_mark, skip_blanks, read_mark, read_object, read_member,
  IsPlain, member_number, member_text, members_more, members_last,
}

update_interval-lt : (ms : ℕ) → update_interval ms < 2 ^ 64
unfolding update_interval
update_interval-lt ms = omega arith

module _ {p : Platform} where
  -- What a beacon tells: the keys and values of doc and client.
  abbrev pub told : TracerContext p → ℕ → List (List ℕ × Value)
  told ctx port =
      (codes "sequence_nr", number ctx.sequence_no)
      ∷ (codes "server_version", text (codes "1.1.0"))
      ∷ (codes "protocoll_version", text (codes "1.1.0"))
      ∷ (codes "update_interval_msecs", number (update_interval ctx.app_cfg.announce_interval))
      ∷ (codes "hostname", text ctx.app_cfg.hostname)
      ∷ (codes "process_name", text ctx.app_cfg.process_name)
      ∷ (codes "port", number port)
      ∷ []

  pub read_object-json_text :
      (ctx : TracerContext p) (port : ℕ)
      → ctx.sequence_no < 2 ^ 64
      → port < 2 ^ 16
      → All IsPlain ctx.app_cfg.hostname
      → All IsPlain ctx.app_cfg.process_name
      → read_object 7 (json_text ctx port) ≡ some (told ctx port)
  unfolding json_text read_object read_mark take_mark skip_blanks is_digit read_member
  read_object-json_text ctx port hseq hport hhost hproc =
      let quoted = λ (key rest : List ℕ). b'"' ∷ (key ++ b'"' ∷ b':' ∷ b' ' ∷ rest) in
      let string = λ (key s rest : List ℕ). quoted key (b'"' ∷ (s ++ b'"' ∷ b',' ∷ rest)) in
      let seven : List ℕ = quoted (codes "port") (decimal port ++ b'}' ∷ []) in
      let six : List ℕ = b' ' ∷ string (codes "process_name") ctx.app_cfg.process_name seven in
      let five : List ℕ = string (codes "hostname") ctx.app_cfg.hostname six in
      let interval : ℕ = update_interval ctx.app_cfg.announce_interval in
      let four : List ℕ =
        quoted (codes "update_interval_msecs") (decimal interval ++ b',' ∷ five) in
      let three : List ℕ = b' ' ∷ string (codes "protocoll_version") protocoll_version four in
      let two : List ℕ = string (codes "server_version") server_version three in
      let one : List ℕ =
        b' ' ∷ quoted (codes "sequence_nr") (decimal ctx.sequence_no ++ b',' ∷ two) in
      members_more 6 one two (codes "sequence_nr", number ctx.sequence_no) _
        (member_number (codes "sequence_nr") ctx.sequence_no b',' two (omega arith) hseq refl)
        (members_more 5 two three (codes "server_version", text server_version) _
          (member_text (codes "server_version") server_version (b',' ∷ three) (omega arith)
            (omega arith))
          (members_more 4 three four (codes "protocoll_version", text protocoll_version) _
            (member_text (codes "protocoll_version") protocoll_version (b',' ∷ four) (omega arith)
              (omega arith))
            (members_more 3 four five (codes "update_interval_msecs", number interval) _
              (member_number (codes "update_interval_msecs") interval b',' five (omega arith)
                (update_interval-lt ctx.app_cfg.announce_interval) refl)
              (members_more 2 five six (codes "hostname", text ctx.app_cfg.hostname) _
                (member_text (codes "hostname") ctx.app_cfg.hostname (b',' ∷ six) (omega arith)
                  hhost)
                (members_more 1 six seven (codes "process_name", text ctx.app_cfg.process_name) _
                  (member_text (codes "process_name") ctx.app_cfg.process_name (b',' ∷ seven)
                    (omega arith) hproc)
                  (members_last 0 seven (codes "port", number port)
                    (member_number (codes "port") port b'}' [] (omega arith) (omega (arith, hport))
                      refl)))))))
