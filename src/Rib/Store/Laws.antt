-- ===== src/Rib/Store/Laws.antt =====
-- What the operations of src/rib/rib.cc do to the entry of an agent and to the pending set.
use flexran_rtc.Base.{
  ℕ, ◌≡◌, refl, sym, inl, inr, true, false, none, some, arith, ◌==◌, if◌then◌else◌, ==_iff,
  Bool-cases,
}
use flexran_rtc.Base.Maps.{map_value, find-insert, find-erase, find-modify}
use flexran_rtc.Rib.Enb.{EnbRibInfo, new_enb}
use flexran_rtc.Rib.Store.{
  Rib, present, add_pending_agent, remove_pending_agent, agent_is_pending, new_enb_config_entry,
  has_enb_config_entry, update_entry, get_agent,
}

pub get_agent-update_entry :
    (f : EnbRibInfo → EnbRibInfo) (k j : ℕ) (r : Rib)
    → get_agent j (update_entry f k r)
      ≡ (if k == j then map_value f (get_agent j r) else get_agent j r)
unfolding get_agent update_entry
get_agent-update_entry f k j r = elim (Bool-cases (k == j)) [
  | inl e ↦ rw (sym ((==_iff k j).0 e)) (ground (arith, find-modify k k f r.enb_configs))
  | inr e ↦ ground (arith, find-modify k j f r.enb_configs)
]

pub pending-update_entry :
    (f : EnbRibInfo → EnbRibInfo) (k j : ℕ) (r : Rib)
    → agent_is_pending j (update_entry f k r) ≡ agent_is_pending j r
unfolding update_entry agent_is_pending
pending-update_entry f k j r = ground arith

pub get_agent-new_enb_config_entry :
    (clock k j : ℕ) (r : Rib)
    → get_agent j (new_enb_config_entry clock k r) ≡ (elim (get_agent j r) [
      | none ↦ if k == j then some (new_enb clock k) else none
      | some e ↦ some e
    ])
unfolding get_agent new_enb_config_entry
get_agent-new_enb_config_entry clock k j r = find-insert k j (new_enb clock k) r.enb_configs

pub pending-add_pending_agent :
    (k j : ℕ) (r : Rib)
    → agent_is_pending j (add_pending_agent k r) ≡ (if k == j then true else agent_is_pending j r)
unfolding agent_is_pending add_pending_agent
pending-add_pending_agent k j r = ground (arith, find-insert k j tt r.pending_agents)

pub pending-remove_pending_agent :
    (k j : ℕ) (r : Rib)
    → agent_is_pending j (remove_pending_agent k r)
      ≡ (if k == j then false else agent_is_pending j r)
unfolding agent_is_pending remove_pending_agent
pending-remove_pending_agent k j r = ground (arith, find-erase k j r.pending_agents)

pub get_agent-remove_pending_agent :
    (k j : ℕ) (r : Rib) → get_agent j (remove_pending_agent k r) ≡ get_agent j r
unfolding get_agent remove_pending_agent
get_agent-remove_pending_agent k j r = refl

pub get_agent-add_pending_agent :
    (k j : ℕ) (r : Rib) → get_agent j (add_pending_agent k r) ≡ get_agent j r
unfolding get_agent add_pending_agent
get_agent-add_pending_agent k j r = refl

pub pending-new_enb_config_entry :
    (clock k j : ℕ) (r : Rib)
    → agent_is_pending j (new_enb_config_entry clock k r) ≡ agent_is_pending j r
unfolding agent_is_pending new_enb_config_entry
pending-new_enb_config_entry clock k j r = refl

pub has_enb_config_entry_lem :
    (k : ℕ) (r : Rib) → has_enb_config_entry k r ≡ present (get_agent k r)
unfolding has_enb_config_entry get_agent
has_enb_config_entry_lem k r = refl
