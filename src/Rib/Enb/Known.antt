-- ===== src/Rib/Enb/Known.antt =====
-- The UEs of src/rib/enb_rib_info.cc: a configured UE has an entry with its MAC information,
-- which the schedulers read through a pointer that they do not test.
use flexran_rtc.Base.{
  ℕ, ◌≡◌, refl, ◌∙◌, inl, inr, Bool, true, false, Option, none, some, List, [], ◌∷◌, ◌++◌, arith,
  ◌==◌, ◌&&◌, ◌||◌, not, ==_iff, Bool-cases,
}
use flexran_rtc.Base.Maps
use flexran_rtc.Base.Maps.{map_value, find-insert, find-erase, find-modify}
use flexran_rtc.Messages.{
  UeConfig, DlInfo, UlInfo, UeStatsReport, SfTrigger, StatsReply, UeChange, UeStateChange, updated,
  activated, deactivated, moved, other_change,
}
use flexran_rtc.Rib.Ue.{
  UeMacRibInfo, new_ue, update_dl_sf_info, update_ul_sf_info, update_mac_stats_report,
}
use flexran_rtc.Rib.Enb.{
  EnbRibInfo, add_missing, update_ue_config, remove_first, replace_all, deactivate, change_ue_state,
  dl_infos, ul_infos, update_subframe, ue_reports, update_mac_stats, get_ue_mac_info,
}

abbrev pub has_ue : ℕ → List UeConfig → Bool
has_ue rnti [] = false
has_ue rnti (c ∷ cs) = c.rnti == rnti || has_ue rnti cs

abbrev pub Distinct : List UeConfig → Type 0
Distinct [] = Unit {0}
Distinct (c ∷ cs) = (has_ue c.rnti cs ≡ false) × Distinct cs

abbrev has_info : ℕ → List (ℕ × UeMacRibInfo) → Bool
has_info j m = elim (Maps.find j m) [ none ↦ false | some u ↦ true ]

-- No UE is configured twice, and each that is configured has an entry.
pub record KnownUes (e : EnbRibInfo) : Type 0 where
  pub distinct : Distinct e.ue_config
  pub known :
      (rnti : ℕ)
      → has_ue rnti e.ue_config ≡ true
      → (u : UeMacRibInfo) × (get_ue_mac_info e rnti ≡ some u)

info-add_missing :
    (j : ℕ) (cs : List UeConfig) (m : List (ℕ × UeMacRibInfo))
    → has_info j (add_missing cs m) ≡ (has_ue j cs || has_info j m)
unfolding add_missing
info-add_missing j [] m = refl
info-add_missing j (c ∷ cs) m = ground (
  arith,
  ==_iff c.rnti j,
  find-insert c.rnti j (new_ue c.rnti) m,
  info-add_missing j cs m,
  info-add_missing j cs (Maps.insert c.rnti (new_ue c.rnti) m),
)

has_ue-append :
    (j : ℕ) (cs : List UeConfig) (c : UeConfig)
    → has_ue j (cs ++ c ∷ []) ≡ (has_ue j cs || c.rnti == j)
has_ue-append j [] c = ground arith
has_ue-append j (d ∷ cs) c = ground (arith, has_ue-append j cs c)

Distinct-append :
    (cs : List UeConfig) (c : UeConfig)
    → Distinct cs
    → has_ue c.rnti cs ≡ false
    → Distinct (cs ++ c ∷ [])
Distinct-append [] c d h = (refl, tt)
Distinct-append (x ∷ cs) c d h = (
  ground (arith, d.0, ==_iff x.rnti c.rnti, has_ue-append x.rnti cs c),
  Distinct-append cs c d.1 (ground arith),
)

-- What is left after the removal of a UE that is configured once at most.
Removed : ℕ → List UeConfig → Option (List UeConfig) → Type 0
Removed rnti cs none = Unit {0}
Removed rnti cs (some left) =
    Distinct left × ((j : ℕ) → has_ue j left ≡ (not (rnti == j) && has_ue j cs))

Removed-cons :
    (rnti : ℕ) (c : UeConfig) (cs : List UeConfig) (o : Option (List UeConfig))
    → (c.rnti == rnti) ≡ false
    → Distinct (c ∷ cs)
    → Removed rnti cs o
    → Removed rnti (c ∷ cs) (elim o [ none ↦ none | some left ↦ some (c ∷ left) ])
unfolding Removed
Removed-cons rnti c cs none e d r = tt
Removed-cons rnti c cs (some left) e d r = (
  (ground (arith, r.1 c.rnti, d.0), r.0),
  λ j. ground (arith, r.1 j, ==_iff rnti j, ==_iff c.rnti j),
)

remove_first-Removed :
    (rnti : ℕ) (cs : List UeConfig) → Distinct cs → Removed rnti cs (remove_first rnti cs)
unfolding Removed remove_first
remove_first-Removed rnti [] d = tt
remove_first-Removed rnti (c ∷ cs) d = elim (Bool-cases (c.rnti == rnti)) [
  | inl e ↦ rw e (d.1, λ j. ground (arith, d.0, ==_iff c.rnti rnti, ==_iff rnti j, ==_iff c.rnti j))
  | inr e ↦
      rw e (Removed-cons rnti c cs (remove_first rnti cs) e d (remove_first-Removed rnti cs d.1))
]

has_ue-replace_all :
    (new : UeConfig) (j : ℕ) (cs : List UeConfig) → has_ue j (replace_all new cs) ≡ has_ue j cs
unfolding replace_all
has_ue-replace_all new j [] = refl
has_ue-replace_all new j (c ∷ cs) = ground (arith, has_ue-replace_all new j cs)

Distinct-replace_all :
    (new : UeConfig) (cs : List UeConfig) → Distinct cs → Distinct (replace_all new cs)
unfolding replace_all
Distinct-replace_all new [] d = tt
Distinct-replace_all new (c ∷ cs) d = ground (
  arith,
  has_ue-replace_all new c.rnti cs,
  has_ue-replace_all new new.rnti cs,
  ==_iff c.rnti new.rnti,
  Distinct-replace_all new cs d.1,
)

find_of_info :
    (j : ℕ) (m : List (ℕ × UeMacRibInfo))
    → has_info j m ≡ true
    → (u : UeMacRibInfo) × (Maps.find j m ≡ some u)
find_of_info j m h = ground arith

info-erase :
    (k j : ℕ) (m : List (ℕ × UeMacRibInfo))
    → has_info j (Maps.erase k m) ≡ (not (k == j) && has_info j m)
info-erase k j m = ground (arith, find-erase k j m)

info-insert :
    (k j : ℕ) (u : UeMacRibInfo) (m : List (ℕ × UeMacRibInfo))
    → has_info j (Maps.insert k u m) ≡ (has_info j m || k == j)
info-insert k j u m = ground (arith, find-insert k j u m)

info-modify :
    (k j : ℕ) (f : UeMacRibInfo → UeMacRibInfo) (m : List (ℕ × UeMacRibInfo))
    → has_info j (Maps.modify k f m) ≡ has_info j m
info-modify k j f m = ground (arith, find-modify k j f m)

info-dl_infos :
    (j : ℕ) (ds : List DlInfo) (m : List (ℕ × UeMacRibInfo))
    → has_info j (dl_infos ds m) ≡ has_info j m
unfolding dl_infos
info-dl_infos j [] m = refl
info-dl_infos j (d ∷ ds) m =
    info-dl_infos j ds (Maps.modify d.rnti (λ u. update_dl_sf_info u d) m)
    ∙ info-modify d.rnti j (λ u. update_dl_sf_info u d) m

info-ul_infos :
    (j : ℕ) (ds : List UlInfo) (m : List (ℕ × UeMacRibInfo))
    → has_info j (ul_infos ds m) ≡ has_info j m
unfolding ul_infos
info-ul_infos j [] m = refl
info-ul_infos j (d ∷ ds) m =
    info-ul_infos j ds (Maps.modify d.rnti (λ u. update_ul_sf_info u d) m)
    ∙ info-modify d.rnti j (λ u. update_ul_sf_info u d) m

info-ue_reports :
    (j : ℕ) (rs : List UeStatsReport) (m : List (ℕ × UeMacRibInfo))
    → has_info j (ue_reports rs m) ≡ has_info j m
unfolding ue_reports
info-ue_reports j [] m = refl
info-ue_reports j (r ∷ rs) m =
    info-ue_reports j rs (Maps.modify r.rnti (λ u. update_mac_stats_report u r) m)
    ∙ info-modify r.rnti j (λ u. update_mac_stats_report u r) m

module _ (e : EnbRibInfo) (k : KnownUes e) where
  known_info : (j : ℕ) → has_ue j e.ue_config ≡ true → has_info j e.ue_mac_info ≡ true
  unfolding get_ue_mac_info
  known_info j h = let (u, q) = k.known j h in ground (arith, q)

  activate-KnownUes :
      (c : UeConfig)
      → has_ue c.rnti e.ue_config ≡ false
      → KnownUes (change_ue_state (record { type = activated; config = c }) e)
  unfolding change_ue_state get_ue_mac_info
  activate-KnownUes c new = record {
    distinct = Distinct-append e.ue_config c k.distinct new;
    known = λ j h. find_of_info j _ (
        ground (
          arith,
          info-insert c.rnti j (new_ue c.rnti) e.ue_mac_info,
          has_ue-append j e.ue_config c,
          known_info j,
        ));
  }

  replace-KnownUes :
      (c : UeConfig) → KnownUes (change_ue_state (record { type = updated; config = c }) e)
  unfolding change_ue_state get_ue_mac_info
  replace-KnownUes c = record {
    distinct = Distinct-replace_all c e.ue_config k.distinct;
    known =
        λ j h. find_of_info j _ (ground (arith, has_ue-replace_all c j e.ue_config, known_info j));
  }

  deactivate_at :
      (rnti : ℕ) (o : Option (List UeConfig))
      → remove_first rnti e.ue_config ≡ o
      → Removed rnti e.ue_config o
      → KnownUes (deactivate rnti e)
  unfolding deactivate Removed get_ue_mac_info
  deactivate_at rnti none q r = rw (q, deactivate) k
  deactivate_at rnti (some left) q r =
      rw (q, deactivate)
        (record {
          distinct = r.0;
          known = λ j h.
              find_of_info j _
                (ground (arith, r.1 j, info-erase rnti j e.ue_mac_info, known_info j));
        })

  change_at :
      (t : UeChange) (c : UeConfig)
      → (t ≡ activated → has_ue c.rnti e.ue_config ≡ false)
      → KnownUes (change_ue_state (record { type = t; config = c }) e)
  unfolding change_ue_state
  change_at activated c fresh = activate-KnownUes c (fresh refl)
  change_at updated c fresh = replace-KnownUes c
  change_at deactivated c fresh =
      deactivate_at c.rnti (remove_first c.rnti e.ue_config) refl
        (remove_first-Removed c.rnti e.ue_config k.distinct)
  change_at moved c fresh = k
  change_at other_change c fresh = k

  -- A change of the state of one UE keeps every configured UE known, and none is configured
  -- twice; a UE that is activated must not be configured before.
  pub change_ue_state-KnownUes :
      (s : UeStateChange)
      → (s.type ≡ activated → has_ue s.config.rnti e.ue_config ≡ false)
      → KnownUes (change_ue_state s e)
  change_ue_state-KnownUes s fresh = change_at s.type s.config fresh

  -- The reports of a subframe and of the MAC layer keep every configured UE known, and a new
  -- list of UEs, none twice in it, makes each of its UEs known.
  pub reports-KnownUes :
      (clock : ℕ) (t : SfTrigger) (r : StatsReply) (ues : List UeConfig)
      → Distinct ues
      → KnownUes (update_subframe clock t e)
        × KnownUes (update_mac_stats r e)
        × KnownUes (update_ue_config clock ues e)
  unfolding update_subframe update_mac_stats update_ue_config get_ue_mac_info
  reports-KnownUes clock t r ues d = (
    record {
      distinct = k.distinct;
      known = λ j h. find_of_info j _ (
          ground (
            arith,
            known_info j h,
            info-dl_infos j t.dl_info e.ue_mac_info,
            info-ul_infos j t.ul_info (dl_infos t.dl_info e.ue_mac_info),
          ));
    },
    record {
      distinct = k.distinct;
      known = λ j h.
          find_of_info j _
            (ground (arith, known_info j h, info-ue_reports j r.ue_report e.ue_mac_info));
    },
    record {
      distinct = d;
      known = λ j h. find_of_info j _ (ground (arith, info-add_missing j ues e.ue_mac_info));
    },
  )
