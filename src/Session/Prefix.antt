-- ===== src/Session/Prefix.antt =====
-- `split_plan_prefix` of bolt/src/session.rs. A slice of a `str` panics inside a character: `none`.
use ontological_db.Base.{
  Bool, true, false, ◌&&◌, ltb, if◌then◌else◌, List, [], ◌∷◌, Option, none, some, length, take,
  drop, get_or,
}
use ontological_db.Text.Strings.{
  codes, eq_ignore_ascii_case, is_ascii_whitespace, trim_start, is_continuation,
}
use ontological_db.Session.Settings.{Text}

-- The keyword stands at the start, with white space behind it.
unfoldable pub opens_with : Text → Text → Bool
unfolding eq_ignore_ascii_case is_ascii_whitespace
opens_with kw t =
    eq_ignore_ascii_case (take (length kw) t) kw && is_ascii_whitespace (get_or t (length kw) 0)

-- What stands behind the prefix: `EXPLAIN FABRIC` is a statement of its own.
unfoldable pub behind : Text → Text → Option (Text × Bool)
unfolding opens_with is_continuation
behind query rest =
    if ltb 6 (length rest)
    then (if is_continuation (get_or rest 6 0)
        then none
        else if opens_with (codes "fabric") rest
        then some (query, false)
        else some (rest, true))
    else some (rest, true)

unfoldable pub split_at : List Text → Text → Text → Option (Text × Bool)
unfolding opens_with behind is_continuation trim_start
split_at [] query trimmed = some (query, false)
split_at (kw ∷ kws) query trimmed =
    let next = split_at kws query trimmed in
    if ltb (length kw) (length trimmed)
    then (if is_continuation (get_or trimmed (length kw) 0)
        then none
        else if opens_with kw trimmed
        then behind query (trim_start (drop (length kw) trimmed))
        else next)
    else next

abbrev pub plan_keywords : List Text
plan_keywords = codes "explain" ∷ codes "profile" ∷ []

unfoldable pub split_plan_prefix : Text → Option (Text × Bool)
unfolding split_at trim_start
split_plan_prefix query = split_at plan_keywords query (trim_start query)
