-- ===== src/Systems/Apply/Sessions.antt =====
-- The rows that an event of a session concerns (systems.go): which of them are of its bot, and in its
-- session or in another.
use minecraft_orchestrator.Base.{
  ℕ, zero, suc, Bool, true, false, All, get_elem?, ==-cases, inl, inr, ◌⊎◌, some, List, [], ◌∷◌,
  ◌≡◌, ◌≢◌, refl, ap, ◌∙◌, arith, some_injective, none_ne_some,
}
use minecraft_orchestrator.Network.{Event}
use minecraft_orchestrator.Systems.Observations.{Row, begins_new_remote_session}
use minecraft_orchestrator.Systems.Observations.Laws.{same_string, other_string}
use minecraft_orchestrator.Systems.Feedback.{any_row, any_view, matches_session}
use minecraft_orchestrator.Systems.Apply.{begins_session}

-- A row that, if it is one of the bot of an event, is in a session other than the event's; an event
-- without a session is in none.
abbrev pub IsApart : Event → Row → Type 0
IsApart event row =
    row.bot.profile_id ≡ event.profile_id
    → (event.remote_session_id ≡ "") ⊎ (row.session.remote_session_id ≢ event.remote_session_id)

abbrev pub IsElsewhere : Event → List (List Row) → Type 0
IsElsewhere event views = All (All (IsApart event)) views

-- A row that stands in one of the views.
pub record IsIn (row : Row) (views : List (List Row)) : Type 0 where
  pub view_at : ℕ
  pub row_at : ℕ
  pub view : List Row
  pub has_view : get_elem? views view_at ≡ some view
  pub has_row : get_elem? view row_at ≡ some row

any_row-some :
    (test : Row → Bool) (rows : List Row) (j : ℕ) (row : Row)
    → get_elem? rows j ≡ some row
    → test row ≡ true
    → any_row test rows ≡ true
unfolding any_row
any_row-some test [] j row e h = absurd (none_ne_some e)
any_row-some test (r ∷ rows) zero row e h = rw (ap test (some_injective e) ∙ h) refl
any_row-some test (r ∷ rows) (suc j) row e h = ground (arith, any_row-some test rows j row e h)

any_view-some :
    (test : Row → Bool) (views : List (List Row)) (i : ℕ) (view : List Row)
    → get_elem? views i ≡ some view
    → any_row test view ≡ true
    → any_view test views ≡ true
unfolding any_view
any_view-some test [] i view e h = absurd (none_ne_some e)
any_view-some test (r ∷ views) zero view e h = rw (ap (any_row test) (some_injective e) ∙ h) refl
any_view-some test (r ∷ views) (suc i) view e h =
    ground (arith, any_view-some test views i view e h)

pub any_view-IsIn :
    (test : Row → Bool) (views : List (List Row)) (row : Row)
    → IsIn row views
    → test row ≡ true
    → any_view test views ≡ true
any_view-IsIn test views row is_in h =
    any_view-some test views is_in.view_at is_in.view is_in.has_view
      (any_row-some test is_in.view is_in.row_at row is_in.has_row h)

matches_session-false :
    (event : Event) (row : Row) → IsApart event row → matches_session event row ≡ false
unfolding matches_session
matches_session-false event row apart = elim (==-cases row.bot.profile_id event.profile_id) [
  | inr ne ↦ ground (arith, ne)
  | inl same ↦ elim (apart same) [
    | inl empty ↦ ground (arith, same_string event.remote_session_id "" empty)
    | inr other ↦
        ground (arith, other_string row.session.remote_session_id event.remote_session_id other)
  ]
]

-- A row of the bot of an event that is in the event's session.
abbrev pub IsOf : Event → Row → Type 0
IsOf event row =
    (row.bot.profile_id ≡ event.profile_id)
    × (event.remote_session_id ≢ "")
    × (row.session.remote_session_id ≡ event.remote_session_id)

pub matches_session-true :
    (event : Event) (row : Row) → IsOf event row → matches_session event row ≡ true
unfolding matches_session
matches_session-true event row (same, named, in_session) = ground (
  arith,
  same,
  other_string event.remote_session_id "" named,
  same_string row.session.remote_session_id event.remote_session_id in_session,
)

any_row-IsElsewhere :
    (event : Event) (rows : List Row)
    → All (IsApart event) rows
    → any_row (matches_session event) rows ≡ false
unfolding any_row
any_row-IsElsewhere event [] all = refl
any_row-IsElsewhere event (row ∷ rows) all =
    rw (matches_session-false event row all.0) (any_row-IsElsewhere event rows all.1)

pub any_view-IsElsewhere :
    (event : Event) (views : List (List Row))
    → IsElsewhere event views
    → any_view (matches_session event) views ≡ false
unfolding any_view
any_view-IsElsewhere event [] all = refl
any_view-IsElsewhere event (view ∷ views) all =
    rw (any_row-IsElsewhere event view all.0) (any_view-IsElsewhere event views all.1)

-- A row of the bot of an event that is in a session with another name than the event's.
abbrev pub IsPrevious : Event → Row → Type 0
IsPrevious event row =
    (row.bot.profile_id ≡ event.profile_id)
    × (event.remote_session_id ≢ "")
    × (row.session.remote_session_id ≢ "")
    × (row.session.remote_session_id ≢ event.remote_session_id)

pub begins_session-true :
    (event : Event) (row : Row) → IsPrevious event row → begins_session event row ≡ true
unfolding begins_session begins_new_remote_session
begins_session-true event row (same, named, known, other) = ground (
  arith,
  same,
  other_string event.remote_session_id "" named,
  other_string row.session.remote_session_id "" known,
  other_string row.session.remote_session_id event.remote_session_id other,
)
