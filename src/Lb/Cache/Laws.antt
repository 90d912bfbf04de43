-- ===== src/Lb/Cache/Laws.antt =====
-- When the comparison of a service with its cache entry settles.
use kube_loxilb.Api.LbModel.{ep_select_eq}
use kube_loxilb.Base.{
  Bool, Eq, String, ap, arith, bool_eq, false, if◌then◌else◌, ltb, nat_eq, not, refl, string_eq,
  sym, true, ℕ, ◌<◌, ◌==◌, ◌||◌, ◌∙◌, ◌≡◌,
}
use kube_loxilb.Base.Int.{int_eq, negsuc, pos, to_u16, ℤ}
use kube_loxilb.Lb.Cache.{apply_settings, new_entry, settings_differ}
use kube_loxilb.Lb.Desired.{Desired}
use kube_loxilb.Lb.Types.{LbCacheEntry}

-- The port survives the conversion to 16 bits.
abbrev pub is_port : ℤ → Bool
is_port (pos n) = ltb n 65536
is_port (negsuc n) = false

port_kept :
    (z : ℤ) (p : ℕ) → p < 65536 → (z == pos (if z == pos p then p else to_u16 z)) ≡ is_port z
unfolding to_u16
port_kept (pos n) p h = ground arith
port_kept (negsuc n) p h = ground arith

same {ℓ} : {A : Type ℓ} ⦃q : Eq A⦄ (x : A) {y : A} → y ≡ x → (x == y) ≡ true
same ⦃q⦄ x e = (q.equal_iff x _).1 (sym e)

-- A comparison that finds no difference drops out of the chain.
equal_drops : (b x y : Bool) → b ≡ true → x ≡ y → (not b || x) ≡ y
equal_drops b x y h e = rw h e

-- Where all settings but the port and egress agree, these two decide.
settings_differ-port :
    (d : Desired) (e : LbCacheEntry)
    → e.addr ≡ d.addr_type
    → e.node_label ≡ d.match_node_label
    → e.timeout ≡ d.timeout
    → e.act_check ≡ d.liveness_check
    → e.lb_mode ≡ d.lb_mode
    → e.probe_type ≡ d.probe_type
    → e.probe_req ≡ d.probe_req
    → e.probe_resp ≡ d.probe_resp
    → e.probe_timeo ≡ d.probe_timeout
    → e.probe_retries ≡ d.probe_retries
    → e.ep_select ≡ d.ep_select
    → e.ppv2_en ≡ d.en_proxy_protov2
    → settings_differ d e
      ≡ (not (d.probe_port == pos e.probe_port) || not (d.is_egress == e.egress))
unfolding settings_differ
settings_differ-port d e a b c f g h i j k l m n =
    let tail = equal_drops _ _ _ (same d.probe_req i) (
      equal_drops _ _ _ (same d.probe_resp j) (
        equal_drops _ _ _ (same d.probe_timeout k) (
          equal_drops _ _ _ (same d.probe_retries l) (
            equal_drops _ _ _ (same d.ep_select m) (
              equal_drops _ (not (d.is_egress == e.egress)) _ (same d.en_proxy_protov2 n)
                refl))))) in
    equal_drops _ _ _ (same d.addr_type a) (
      equal_drops _ _ _ (same d.match_node_label b) (
        equal_drops _ _ _ (same d.timeout c) (
          equal_drops _ _ _ (same d.liveness_check f) (
            equal_drops _ _ _ (same d.lb_mode g) (
              equal_drops _ _ _ (same d.probe_type h)
                (ap (◌||◌ (not (d.probe_port == pos e.probe_port))) tail))))))

-- After an update of an entry whose probe port fits 16 bits, the next comparison with the same
-- settings finds no difference exactly if the probe port that the service asks for fits 16 bits.
pub settings_differ-apply_settings :
    (d : Desired) (e : LbCacheEntry)
    → e.probe_port < 65536
    → settings_differ d (apply_settings d e) ≡ not (is_port d.probe_port)
unfolding apply_settings
settings_differ-apply_settings d e h =
    settings_differ-port d (apply_settings d e) refl refl refl refl refl refl refl refl refl refl
      refl refl
    ∙ ground (arith, port_kept d.probe_port e.probe_port, bool_eq.equal_iff d.is_egress d.is_egress)

-- A new entry differs from the settings that it is made of exactly where the service asks for
-- egress or for a probe port that does not fit 16 bits.
pub settings_differ-new_entry :
    (d : Desired) (inst : String)
    → settings_differ d (new_entry d inst) ≡ (not (is_port d.probe_port) || d.is_egress)
unfolding new_entry
settings_differ-new_entry d inst =
    settings_differ-port d (new_entry d inst) refl refl refl refl refl refl refl refl refl refl refl
      refl
    ∙ ground (arith, port_stored d.probe_port)
  where
    port_stored : (z : ℤ) → (z == pos (to_u16 z)) ≡ is_port z
    port_stored (pos n) = ground arith
    port_stored (negsuc n) = ground arith
