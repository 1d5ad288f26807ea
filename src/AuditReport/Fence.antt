-- ===== src/AuditReport/Fence.antt =====
-- `parse_audit_report_text` of src/qworker/audit_report.py: whitespace and a single JSON fence are
-- taken off before the text is decoded. Texts are the lists of their code points.
use mathlib.Core.List.{reverse}
use dogqoder.Prelude.{
  drop, ℕ, suc, ◌-◌, Bool, true, false, Option, none, some, List, [], ◌∷◌, ◌&&◌, nat_eq, length,
  take, if◌then◌else◌, ◌>>=◌,
}
use dogqoder.Chars.{codes, is_space}
use dogqoder.Json.{Json}
use dogqoder.AuditReport.{ParsedAuditReport, parse_audit_report_payload}

unfoldable pub strip_left : List ℕ → List ℕ
unfolding is_space
strip_left [] = []
strip_left (c ∷ s) = let rest = strip_left s in if is_space c then rest else c ∷ s

-- `str.strip()`
unfoldable pub strip : List ℕ → List ℕ
unfolding strip_left
strip s = reverse (strip_left (reverse (strip_left s)))

-- `s.startswith(p)`
unfoldable pub starts_with : List ℕ → List ℕ → Bool
starts_with s [] = true
starts_with [] (d ∷ p) = false
starts_with (c ∷ s) (d ∷ p) = nat_eq c d && starts_with s p

-- `s.endswith(p)`
unfoldable pub ends_with : List ℕ → List ℕ → Bool
unfolding starts_with
ends_with s p = starts_with (reverse s) (reverse p)

-- "```".count: the fences that do not overlap. `pending` backquotes stand directly before `s`.
unfoldable pub count_fences : ℕ → List ℕ → ℕ
count_fences pending [] = 0
count_fences pending (c ∷ s) =
    let again = count_fences 0 s in
    let found = suc again in
    let more = count_fences (suc pending) s in
    if nat_eq c b'`' then if nat_eq pending 2 then found else more else again

abbrev pub fence_prefix : List ℕ
fence_prefix = codes "```json\n"

abbrev pub fence_suffix : List ℕ
fence_suffix = codes "\n```"

-- `candidate[len(fence_prefix) : -len(fence_suffix)]` where the fence is there.
unfoldable pub unfence : List ℕ → List ℕ
unfolding starts_with ends_with count_fences
unfence s =
    if starts_with s fence_prefix && ends_with s fence_suffix && nat_eq (count_fences 0 s) 2
    then take (length s - 4 - 8) (drop 8 s)
    else s

-- `loads` stands for `json.loads`, with `none` for its `JSONDecodeError`.
unfoldable pub parse_audit_report_text :
    (List ℕ → Option Json) → Option (List ℕ) → Option ParsedAuditReport
unfolding strip unfence
parse_audit_report_text loads none = none
parse_audit_report_text loads (some text) =
    loads (unfence (strip text)) >>= parse_audit_report_payload
