-- ===== src/Ingest/Identity.antt =====
-- The identity of events in backend/app/services/ingest.py: no webhook records an episode twice.
use k8s_alert_manager.Prelude.{
  ℕ, ◌≤◌, String, ◌≡◌, refl, sym, ◌∙◌, inl, inr, true, false, List, [], ◌∷◌, any, count,
  count-append, count-zero_of_any, count-update_where, eq_iff, eq_refl, All2, ◌==◌, Bool-cases,
  arith,
}
use k8s_alert_manager.Models.Alert.{AlertEvent}
use k8s_alert_manager.Models.Db.{Db, set_event}
use k8s_alert_manager.Exec.{Exec, modify}
use k8s_alert_manager.Exec.Keeps.{Steps, IsPreorder}
use k8s_alert_manager.Route.Frame.{SameIdentity, Frame}
use k8s_alert_manager.Ingest.{has_identity, add_event}

-- The unique constraint (cluster_id, fingerprint, starts_at).
pub record UniqueIdentities (db : Db) : Type 0 where
  pub at_identity : (c : ℕ) (f : String) (t : ℕ) → count (has_identity c f t) db.events ≤ 1

abbrev pub KeepsUnique : Db → Db → Type 0
KeepsUnique db db' = UniqueIdentities db → UniqueIdentities db'

pub KeepsUnique-preorder : IsPreorder KeepsUnique
KeepsUnique-preorder = record { same = λ db u. u; then_ = λ a b c f g u. g (f u) }

same-has_identity :
    (c : ℕ) (f : String) (t : ℕ) (e e' : AlertEvent)
    → SameIdentity e e'
    → has_identity c f t e' ≡ has_identity c f t e
unfolding has_identity
same-has_identity c f t e e' h = rw (h.cluster_id, h.fingerprint, h.starts_at) refl

All2-count :
    (c : ℕ) (f : String) (t : ℕ) (es es' : List AlertEvent)
    → All2 SameIdentity es es'
    → count (has_identity c f t) es' ≡ count (has_identity c f t) es
All2-count c f t [] [] h = refl
All2-count c f t (e ∷ es) (e' ∷ es') h =
    ground (arith, same-has_identity c f t e e' h.0, All2-count c f t es es' h.1)
All2-count c f t [] (e ∷ es) h = absurd h
All2-count c f t (e ∷ es) [] h = absurd h

pub KeepsUnique-of_Frame : {A : Type 0} (m : Exec A) → Steps Frame m → Steps KeepsUnique m
KeepsUnique-of_Frame m s = record {
  at = λ db u. record {
    at_identity = λ c f t.
        rw (All2-count c f t db.events (m db).1.events (s.at db).events) (u.at_identity c f t);
  };
}

pub set_event-KeepsUnique :
    (id : ℕ) (g : AlertEvent → AlertEvent)
    → ((e : AlertEvent) → SameIdentity e (g e))
    → Steps KeepsUnique (modify (set_event id g))
set_event-KeepsUnique id g h = record {
  at = λ db u. record {
    at_identity = λ c f t.
        rw
          (count-update_where (has_identity c f t) (λ e. e.id == id) g db.events
            (λ e. same-has_identity c f t e (g e) (h e)))
          (u.at_identity c f t);
  };
}

same_identity :
    (c c' : ℕ) (f f' : String) (t t' : ℕ) (e : AlertEvent)
    → has_identity c f t e ≡ true
    → has_identity c' f' t' e ≡ true
    → (c ≡ c') × (f ≡ f') × (t ≡ t')
unfolding has_identity
same_identity c c' f f' t t' e h k = (
  ground arith,
  sym ((eq_iff e.fingerprint f).0 (ground arith)) ∙ (eq_iff e.fingerprint f').0 (ground arith),
  ground arith,
)

-- An event of a free identity.
pub add_event-KeepsUnique :
    (e : AlertEvent) (db : Db)
    → any (has_identity e.cluster_id e.fingerprint e.starts_at) db.events ≡ false
    → KeepsUnique db (add_event e db)
add_event-KeepsUnique e db free u = record {
  at_identity = λ c f t. elim (Bool-cases (has_identity c f t e)) [
    | inr other ↦
        ground (arith, count-append (has_identity c f t) db.events (e ∷ []), u.at_identity c f t)
    | inl same ↦
        let (pc, pf, pt) = same_identity e.cluster_id c e.fingerprint f e.starts_at t e own same in
        let none_there : count (has_identity c f t) db.events ≡ 0 =
          rw (← pc, ← pf, ← pt)
            (count-zero_of_any (has_identity e.cluster_id e.fingerprint e.starts_at) db.events
              free) in
        ground (arith, count-append (has_identity c f t) db.events (e ∷ []), none_there)
  ];
}
  where
    own : has_identity e.cluster_id e.fingerprint e.starts_at e ≡ true
    own = unfold has_identity in ground (arith, eq_refl e.fingerprint)
