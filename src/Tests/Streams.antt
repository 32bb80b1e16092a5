-- ===== src/Tests/Streams.antt =====
-- pkg/bridge/io.go at a concrete stream.
use foxbridge.Common.{
  String, ◌≡◌, refl, inl, inr, none, some, string_key, string_discrete, ◌==◌, if◌then◌else◌, arith,
  differ, subst⁻¹, Bool-cases,
}
use foxbridge.Dict.{empty, get, put, get-put}
use foxbridge.Cdp.Message.{pos, Message}
use foxbridge.Bridge.Streams.{Streams, is_foreign, handle_io, stream_not_found}
use foxbridge.Bridge.Streams.Owners.{MayUse, handle_io-isolated, handle_io-closes}

abbrev printed : Streams
printed = record { pdf_streams = put empty "h" "JVBERi0"; pdf_owners = put empty "h" "s1" }

abbrev ask : String → String → Message
ask method session_id = record {
  id = pos 1;
  method = method;
  params = some "h";
  result = none;
  error = none;
  session_id = session_id;
}

abbrev decode : String → String
decode raw = raw

abbrev other : Streams
other = record { pdf_streams = put empty "h" "Zm9v"; pdf_owners = put empty "h" "s1" }

is_foreign_to_s2 : ¬ MayUse printed "h" "s2"
unfolding get put empty string_discrete
is_foreign_to_s2 m =
    ground (arith, differ {K = String} "s1" "s2" refl, differ {K = String} "s1" "" refl)

same_streams :
    (h : String) → MayUse printed h "s2" → get printed.pdf_streams h ≡ get other.pdf_streams h
same_streams h m =
    rw (get-put (empty {V = String}) "h" "JVBERi0" h, get-put (empty {V = String}) "h" "Zm9v" h)
      (elim (Bool-cases (◌==◌ {K = String} "h" h)) [
        | inl e ↦ absurd (is_foreign_to_s2 (subst⁻¹ (λ x. MayUse printed x "s2") (ground arith) m))
        | inr e ↦ rw e refl
      ])

handle_io-isolated_example :
    ((handle_io decode decode printed (ask "IO.read" "s2")).1
      ≡ (handle_io decode decode other (ask "IO.read" "s2")).1)
    × ((h : String)
        → ¬ MayUse printed h "s2"
        → let after = (handle_io decode decode printed (ask "IO.read" "s2")).0 in
          (get after.pdf_streams h ≡ get printed.pdf_streams h)
          × (get after.pdf_owners h ≡ get printed.pdf_owners h))
handle_io-isolated_example =
    handle_io-isolated decode decode printed other (ask "IO.read" "s2") (λ h. refl) same_streams

closes_own : (handle_io decode decode printed (ask "IO.close" "s1")).1.1 ≡ none
unfolding handle_io is_foreign get put empty string_discrete
closes_own = refl

handle_io-closes_example :
    (handle_io decode decode
      (handle_io decode decode printed (ask "IO.close" "s1")).0
      (ask "IO.read" "s1")).1
    ≡ (if ◌==◌ {K = String} "h" "h"
        then stream_not_found "h"
        else (handle_io decode decode printed (ask "IO.read" "s1")).1)
handle_io-closes_example =
    handle_io-closes decode decode printed (ask "IO.close" "s1") (ask "IO.read" "s1") refl
      closes_own refl
