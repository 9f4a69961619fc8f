-- ===== src/Sessions/Revoked.antt =====
-- app/accounts.py: a session that was revoked is never accepted again.
use opsark_admin.Common.{
  ℕ, ◌≡◌, ◌≢◌, refl, Bool, true, none, some, [], ◌∷◌, ◌==◌, Bool-cases, inl, inr,
}
use opsark_admin.Common.Table.{Table, get, update, insert}
use opsark_admin.Models.{Db, UserSession}
use opsark_admin.Sessions.{find_session, revoke_where}

-- Every row of the session is revoked.
abbrev pub AllRevoked : ℕ → Table UserSession → Type 0
AllRevoked id [] = Unit
AllRevoked id ((j, row) ∷ rows) = (id ≡ j → row.revoked ≡ true) × AllRevoked id rows

-- The session is there, and it is revoked.
pub record IsRevoked (id : ℕ) (db : Db) : Type 0 where
  pub there : get id db.sessions ≢ none
  pub revoked : AllRevoked id db.sessions

pub update-AllRevoked :
    (id k : ℕ) (f : UserSession → UserSession) (t : Table UserSession)
    → ((row : UserSession) → row.revoked ≡ true → (f row).revoked ≡ true)
    → AllRevoked id t
    → AllRevoked id (update k f t)
update-AllRevoked id k f [] keep h = tt
update-AllRevoked id k f ((j, row) ∷ t) keep h = elim (Bool-cases (k == j)) [
  | inl hit ↦ rw hit (λ e. keep row (h.0 e), h.1)
  | inr miss ↦ rw miss (h.0, update-AllRevoked id k f t keep h.1)
]

pub insert-AllRevoked :
    (id k : ℕ) (s : UserSession) (t : Table UserSession)
    → id ≢ k
    → AllRevoked id t
    → AllRevoked id (insert k s t)
insert-AllRevoked id k s [] ne h = (λ e. absurd (ne e), tt)
insert-AllRevoked id k s ((j, row) ∷ t) ne h = (h.0, insert-AllRevoked id k s t ne h.1)

pub revoke_where-AllRevoked :
    (id u : ℕ) (t : Table UserSession) → AllRevoked id t → AllRevoked id (revoke_where u t)
unfolding revoke_where
revoke_where-AllRevoked id u [] h = tt
revoke_where-AllRevoked id u ((j, row) ∷ t) h = elim (Bool-cases (row.user_id == u)) [
  | inl mine ↦ rw mine (λ e. refl, revoke_where-AllRevoked id u t h.1)
  | inr other ↦ rw other (h.0, revoke_where-AllRevoked id u t h.1)
]

pub get-revoke_where :
    (id u : ℕ) (t : Table UserSession) → get id t ≢ none → get id (revoke_where u t) ≢ none
unfolding revoke_where
get-revoke_where id u [] h = h
get-revoke_where id u ((j, row) ∷ t) h = elim (Bool-cases (id == j)) [
  | inl hit ↦ λ e. cc (rw hit at e)
  | inr miss ↦ λ e. get-revoke_where id u t (λ none_there. h (rw miss none_there)) (rw miss at e)
]

pub find_session-AllRevoked :
    (id : ℕ) (p : UserSession → Bool) (t : Table UserSession) (row : UserSession)
    → AllRevoked id t
    → find_session p t ≡ some (id, row)
    → row.revoked ≡ true
unfolding find_session
find_session-AllRevoked id p [] row h e = cc e
find_session-AllRevoked id p ((j, r) ∷ t) row h e = elim (Bool-cases (p r)) [
  | inl hit ↦
      let found : some (j, r) ≡ some (id, row) = rw hit at e in
      let same_id : id ≡ j = cc found in
      let same_row : r ≡ row = cc found in rw (← same_row) (h.0 same_id)
  | inr miss ↦ find_session-AllRevoked id p t row h.1 (rw miss at e)
]
