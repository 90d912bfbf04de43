-- ===== src/Lb/Cache/Update.antt =====
-- The comparison of addLoadBalancer with the cache entry: a block for each setting, in order. A block that
-- finds a difference assigns the setting, and sets update and, for an entry that is not new, needDelete.
use kube_loxilb.Api.LbModel.{ep_select_eq}
use kube_loxilb.Base.{
  Bool, List, [], bool_eq, false, if◌then◌else◌, nat_eq, not, string_eq, true, ◌==◌, ◌∷◌,
}
use kube_loxilb.Base.Int.{int_eq, pos, to_u16}
use kube_loxilb.Lb.Cache.{pairs_missing}
use kube_loxilb.Lb.Desired.{Desired}
use kube_loxilb.Lb.Types.{LbCacheEntry}

-- The entry, update and needDelete.
abbrev pub Progress : Type 0
Progress = LbCacheEntry × Bool × Bool

-- needDelete after a difference
abbrev pub delete_if : Bool → Bool → Bool
delete_if added need_delete = if added then true else need_delete

module _ (d : Desired) (added : Bool) where
  abbrev pub update_addr : Progress → Progress
  update_addr (e, update, need_delete) =
      if not (d.addr_type == e.addr)
      then (record e { addr = d.addr_type }, true, delete_if added need_delete)
      else (e, update, need_delete)

  abbrev pub update_node_label : Progress → Progress
  update_node_label (e, update, need_delete) =
      if not (d.match_node_label == e.node_label)
      then (record e { node_label = d.match_node_label }, true, delete_if added need_delete)
      else (e, update, need_delete)

  abbrev pub update_timeout : Progress → Progress
  update_timeout (e, update, need_delete) =
      if not (d.timeout == e.timeout)
      then (record e { timeout = d.timeout }, true, delete_if added need_delete)
      else (e, update, need_delete)

  abbrev pub update_liveness : Progress → Progress
  update_liveness (e, update, need_delete) =
      if not (d.liveness_check == e.act_check)
      then (record e { act_check = d.liveness_check }, true, delete_if added need_delete)
      else (e, update, need_delete)

  abbrev pub update_lb_mode : Progress → Progress
  update_lb_mode (e, update, need_delete) =
      if not (d.lb_mode == e.lb_mode)
      then (record e { lb_mode = d.lb_mode }, true, delete_if added need_delete)
      else (e, update, need_delete)

  abbrev pub update_probe_type : Progress → Progress
  update_probe_type (e, update, need_delete) =
      if not (d.probe_type == e.probe_type)
      then (record e { probe_type = d.probe_type }, true, delete_if added need_delete)
      else (e, update, need_delete)

  unfoldable pub update_probe_port : Progress → Progress
  unfolding to_u16
  update_probe_port (e, update, need_delete) =
      if not (d.probe_port == pos e.probe_port)
      then (record e { probe_port = to_u16 d.probe_port }, true, delete_if added need_delete)
      else (e, update, need_delete)

  abbrev pub update_probe_req : Progress → Progress
  update_probe_req (e, update, need_delete) =
      if not (d.probe_req == e.probe_req)
      then (record e { probe_req = d.probe_req }, true, delete_if added need_delete)
      else (e, update, need_delete)

  abbrev pub update_probe_resp : Progress → Progress
  update_probe_resp (e, update, need_delete) =
      if not (d.probe_resp == e.probe_resp)
      then (record e { probe_resp = d.probe_resp }, true, delete_if added need_delete)
      else (e, update, need_delete)

  abbrev pub update_probe_timeo : Progress → Progress
  update_probe_timeo (e, update, need_delete) =
      if not (d.probe_timeout == e.probe_timeo)
      then (record e { probe_timeo = d.probe_timeout }, true, delete_if added need_delete)
      else (e, update, need_delete)

  abbrev pub update_probe_retries : Progress → Progress
  update_probe_retries (e, update, need_delete) =
      if not (d.probe_retries == e.probe_retries)
      then (record e { probe_retries = d.probe_retries }, true, delete_if added need_delete)
      else (e, update, need_delete)

  abbrev pub update_ep_select : Progress → Progress
  update_ep_select (e, update, need_delete) =
      if not (d.ep_select == e.ep_select)
      then (record e { ep_select = d.ep_select }, true, delete_if added need_delete)
      else (e, update, need_delete)

  abbrev pub update_ppv2_en : Progress → Progress
  update_ppv2_en (e, update, need_delete) =
      if not (d.en_proxy_protov2 == e.ppv2_en)
      then (record e { ppv2_en = d.en_proxy_protov2 }, true, delete_if added need_delete)
      else (e, update, need_delete)

  abbrev pub update_egress : Progress → Progress
  update_egress (e, update, need_delete) =
      if not (d.is_egress == e.egress)
      then (record e { egress = d.is_egress }, true, delete_if added need_delete)
      else (e, update, need_delete)

abbrev pub run_blocks : List (Progress → Progress) → Progress → Progress
run_blocks [] p = p
run_blocks (f ∷ fs) p = run_blocks fs (f p)

-- The entry, update and needDelete after all comparisons.
unfoldable pub update_settings : Desired → Bool → LbCacheEntry → Progress
unfolding pairs_missing update_probe_port
update_settings d added e =
    run_blocks
      (update_addr d added
        ∷ update_node_label d added
        ∷ update_timeout d added
        ∷ update_liveness d added
        ∷ update_lb_mode d added
        ∷ update_probe_type d added
        ∷ update_probe_port d added
        ∷ update_probe_req d added
        ∷ update_probe_resp d added
        ∷ update_probe_timeo d added
        ∷ update_probe_retries d added
        ∷ update_ep_select d added
        ∷ update_ppv2_en d added
        ∷ update_egress d added
        ∷ [])
      (e, pairs_missing e, false)
