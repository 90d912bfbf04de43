-- ===== src/Lb/Cache/Flags.antt =====
-- The fourteen comparisons together: what they assign, and the two flags.
use kube_loxilb.Api.LbModel.{ep_select_eq}
use kube_loxilb.Base.{
  All, Bool, List, [], ap, arith, bool_eq, false, if◌then◌else◌, nat_eq, not, refl, string_eq, ◌&&◌,
  ◌==◌, ◌||◌, ◌∙◌, ◌∷◌, ◌≡◌,
}
use kube_loxilb.Base.Int.{int_eq, pos, to_u16}
use kube_loxilb.Lb.Cache.{apply_settings, pairs_missing, settings_differ}
use kube_loxilb.Lb.Cache.Blocks.{
  Block, Settles, differences, progress, run_blocks_settle, runs, settle, settle_port, triple, ◌&◌,
}
use kube_loxilb.Lb.Cache.Update.{
  run_blocks, update_addr, update_egress, update_ep_select, update_lb_mode, update_liveness,
  update_node_label, update_ppv2_en, update_probe_port, update_probe_req, update_probe_resp,
  update_probe_retries, update_probe_timeo, update_probe_type, update_settings, update_timeout,
}
use kube_loxilb.Lb.Desired.{Desired}
use kube_loxilb.Lb.Types.{LbCacheEntry}

module _ (d : Desired) (added : Bool) where
  blocks : List Block
  unfolding update_probe_port
  blocks =
      (record {
        run = update_addr d added;
        assign = λ (e : LbCacheEntry). record e { addr = d.addr_type };
        differs = λ (e : LbCacheEntry). not (d.addr_type == e.addr);
      })
      ∷ (record {
        run = update_node_label d added;
        assign = λ (e : LbCacheEntry). record e { node_label = d.match_node_label };
        differs = λ (e : LbCacheEntry). not (d.match_node_label == e.node_label);
      })
      ∷ (record {
        run = update_timeout d added;
        assign = λ (e : LbCacheEntry). record e { timeout = d.timeout };
        differs = λ (e : LbCacheEntry). not (d.timeout == e.timeout);
      })
      ∷ (record {
        run = update_liveness d added;
        assign = λ (e : LbCacheEntry). record e { act_check = d.liveness_check };
        differs = λ (e : LbCacheEntry). not (d.liveness_check == e.act_check);
      })
      ∷ (record {
        run = update_lb_mode d added;
        assign = λ (e : LbCacheEntry). record e { lb_mode = d.lb_mode };
        differs = λ (e : LbCacheEntry). not (d.lb_mode == e.lb_mode);
      })
      ∷ (record {
        run = update_probe_type d added;
        assign = λ (e : LbCacheEntry). record e { probe_type = d.probe_type };
        differs = λ (e : LbCacheEntry). not (d.probe_type == e.probe_type);
      })
      ∷ (record {
        run = update_probe_port d added;
        assign = λ (e : LbCacheEntry). record e {
          probe_port =
              if d.probe_port == pos e.probe_port then e.probe_port else to_u16 d.probe_port;
        };
        differs = λ (e : LbCacheEntry). not (d.probe_port == pos e.probe_port);
      })
      ∷ (record {
        run = update_probe_req d added;
        assign = λ (e : LbCacheEntry). record e { probe_req = d.probe_req };
        differs = λ (e : LbCacheEntry). not (d.probe_req == e.probe_req);
      })
      ∷ (record {
        run = update_probe_resp d added;
        assign = λ (e : LbCacheEntry). record e { probe_resp = d.probe_resp };
        differs = λ (e : LbCacheEntry). not (d.probe_resp == e.probe_resp);
      })
      ∷ (record {
        run = update_probe_timeo d added;
        assign = λ (e : LbCacheEntry). record e { probe_timeo = d.probe_timeout };
        differs = λ (e : LbCacheEntry). not (d.probe_timeout == e.probe_timeo);
      })
      ∷ (record {
        run = update_probe_retries d added;
        assign = λ (e : LbCacheEntry). record e { probe_retries = d.probe_retries };
        differs = λ (e : LbCacheEntry). not (d.probe_retries == e.probe_retries);
      })
      ∷ (record {
        run = update_ep_select d added;
        assign = λ (e : LbCacheEntry). record e { ep_select = d.ep_select };
        differs = λ (e : LbCacheEntry). not (d.ep_select == e.ep_select);
      })
      ∷ (record {
        run = update_ppv2_en d added;
        assign = λ (e : LbCacheEntry). record e { ppv2_en = d.en_proxy_protov2 };
        differs = λ (e : LbCacheEntry). not (d.en_proxy_protov2 == e.ppv2_en);
      })
      ∷ (record {
        run = update_egress d added;
        assign = λ (e : LbCacheEntry). record e { egress = d.is_egress };
        differs = λ (e : LbCacheEntry). not (d.is_egress == e.egress);
      })
      ∷ []

  blocks-Settles : All (Settles d added) blocks
  unfolding blocks update_probe_port
  blocks-Settles =
      (λ e u seen. settle d added d.addr_type e.addr (λ v. record e { addr = v }) u seen)
      & (λ e u seen.
          settle d added d.match_node_label e.node_label (λ v. record e { node_label = v }) u seen)
      & (λ e u seen. settle d added d.timeout e.timeout (λ v. record e { timeout = v }) u seen)
      & (λ e u seen.
          settle d added d.liveness_check e.act_check (λ v. record e { act_check = v }) u seen)
      & (λ e u seen. settle d added d.lb_mode e.lb_mode (λ v. record e { lb_mode = v }) u seen)
      & (λ e u seen.
          settle d added d.probe_type e.probe_type (λ v. record e { probe_type = v }) u seen)
      & (λ e u seen.
          settle_port d added d.probe_port e.probe_port (λ v. record e { probe_port = v }) u seen)
      & (λ e u seen.
          settle d added d.probe_req e.probe_req (λ v. record e { probe_req = v }) u seen)
      & (λ e u seen.
          settle d added d.probe_resp e.probe_resp (λ v. record e { probe_resp = v }) u seen)
      & (λ e u seen.
          settle d added d.probe_timeout e.probe_timeo (λ v. record e { probe_timeo = v }) u seen)
      & (λ e u seen.
          settle d added d.probe_retries e.probe_retries (λ v. record e { probe_retries = v }) u
            seen)
      & (λ e u seen.
          settle d added d.ep_select e.ep_select (λ v. record e { ep_select = v }) u seen)
      & (λ e u seen.
          settle d added d.en_proxy_protov2 e.ppv2_en (λ v. record e { ppv2_en = v }) u seen)
      & (λ e u seen. settle d added d.is_egress e.egress (λ v. record e { egress = v }) u seen)
      & tt

-- A chain of tests from the left is the chain from the right.
abbrev any_left : Bool → List Bool → Bool
any_left seen [] = seen
any_left seen (b ∷ bs) = any_left (seen || b) bs

abbrev any_right : Bool → List Bool → Bool
any_right b [] = b
any_right b (c ∷ bs) = b || any_right c bs

any_left-any_right :
    (seen b : Bool) (bs : List Bool) → any_left seen (b ∷ bs) ≡ (seen || any_right b bs)
any_left-any_right seen b [] = refl
any_left-any_right seen b (c ∷ bs) = any_left-any_right (seen || b) c bs ∙ ground arith

module _ (d : Desired) (added : Bool) (e : LbCacheEntry) where
  differences-settings_differ : differences d added false e (blocks d added) ≡ settings_differ d e
  unfolding blocks settings_differ
  differences-settings_differ = any_left-any_right false (not (d.addr_type == e.addr)) (
      not (d.match_node_label == e.node_label)
      ∷ not (d.timeout == e.timeout)
      ∷ not (d.liveness_check == e.act_check)
      ∷ not (d.lb_mode == e.lb_mode)
      ∷ not (d.probe_type == e.probe_type)
      ∷ not (d.probe_port == pos e.probe_port)
      ∷ not (d.probe_req == e.probe_req)
      ∷ not (d.probe_resp == e.probe_resp)
      ∷ not (d.probe_timeout == e.probe_timeo)
      ∷ not (d.probe_retries == e.probe_retries)
      ∷ not (d.ep_select == e.ep_select)
      ∷ not (d.en_proxy_protov2 == e.ppv2_en)
      ∷ not (d.is_egress == e.egress)
      ∷ [])

  -- The fourteen comparisons of a service with its cache entry leave the entry with all settings of the
  -- service, where a probe port is cut to 16 bits if it differs; update is set if and only if the entry lacks
  -- a pair or a rule or some setting differs, and needDelete if and only if the service was in the
  -- cache and some setting differs.
  pub update_settings_lem :
      update_settings d added e
      ≡ progress
          (apply_settings d e)
          (pairs_missing e || settings_differ d e)
          (added && settings_differ d e)
  unfolding update_settings blocks
  update_settings_lem =
      let start : progress e (pairs_missing e) false
          ≡ progress e (pairs_missing e || false) (added && false) =
        triple refl (ground arith) (ground arith) in
      ap (run_blocks (runs d added (blocks d added))) start
      ∙ run_blocks_settle d added (blocks d added) e (pairs_missing e) false
          (blocks-Settles d added)
      ∙ triple (unfold apply_settings in refl)
          (ap (λ b. pairs_missing e || b) differences-settings_differ)
          (ap (λ b. added && b) differences-settings_differ)
