-- ===== src/Discovery/Txt/RoundTrip.antt =====
-- What a node reads from the TXT records that another node advertises.
use jb_mesh.Discovery.Txt.{
  choose_ip, fresh_peer, DiscoveryConfig, ServiceEntry, number_or, from_tools, from_started,
  from_version, from_leaf_port, from_role, txt_records, apply_all, entry_to_peer, as_peer,
  IsSendable, has_leaf_port,
}
use jb_mesh.Base.{refl, some, ◌∷◌, ◌∙◌, inl, Bool-cases, if◌then◌else◌, ap, [], true, inr, ◌≡◌}
use jb_mesh.Base.Int.{int_ltb, ℤ, pos}
use jb_mesh.Base.Text.{is_empty, cut, same, Text}
use jb_mesh.Base.Decimal.{itoa, atoi-itoa, InRange}
use jb_mesh.Discovery.Peers.{Peer}

number_or-itoa : (n old : ℤ) → InRange n → number_or (itoa n) old ≡ n
unfolding number_or
number_or-itoa n old h = rw (number_or, atoi-itoa n h)

eq-nil_of_is_empty : (s : Text) → is_empty s ≡ true → s ≡ []
eq-nil_of_is_empty [] h = refl
eq-nil_of_is_empty (c ∷ s) h = cc

apply_all-from_tools :
    (cfg : DiscoveryConfig) (p : Peer)
    → InRange cfg.tool_count
    → apply_all (from_tools cfg) p ≡ record p { tool_count = cfg.tool_count }
unfolding apply_all from_tools cut same
apply_all-from_tools cfg p h =
    ap (λ n. record p { tool_count = n }) (number_or-itoa cfg.tool_count _ h)

apply_all-from_started :
    (cfg : DiscoveryConfig) (p : Peer)
    → InRange cfg.tool_count
    → InRange cfg.started_at
    → apply_all (from_started cfg) p ≡ record p {
      tool_count = cfg.tool_count;
      started_at = if int_ltb (pos 0) cfg.started_at then cfg.started_at else p.started_at;
    }
unfolding apply_all from_started cut same
apply_all-from_started cfg p h k = elim (Bool-cases (int_ltb (pos 0) cfg.started_at)) [
  | inl sent ↦ rw sent (
      apply_all-from_tools cfg _ h
      ∙ ap (λ n. record p { tool_count = cfg.tool_count; started_at = n })
          (number_or-itoa cfg.started_at _ k))
  | inr unsent ↦ rw unsent (apply_all-from_tools cfg p h)
]

apply_all-from_version :
    (cfg : DiscoveryConfig) (p : Peer)
    → InRange cfg.tool_count
    → InRange cfg.started_at
    → apply_all (from_version cfg) p ≡ record p {
      tool_count = cfg.tool_count;
      started_at = if int_ltb (pos 0) cfg.started_at then cfg.started_at else p.started_at;
      version = if is_empty cfg.version then p.version else cfg.version;
    }
unfolding apply_all from_version cut same
apply_all-from_version cfg p h k = elim (Bool-cases (is_empty cfg.version)) [
  | inl empty ↦ rw empty (apply_all-from_started cfg p h k)
  | inr present ↦ rw present (apply_all-from_started cfg (record p { version = cfg.version }) h k)
]

apply_all-from_leaf_port :
    (cfg : DiscoveryConfig) (p : Peer)
    → InRange cfg.leaf_port
    → InRange cfg.tool_count
    → InRange cfg.started_at
    → apply_all (from_leaf_port cfg) p ≡ record p {
      tool_count = cfg.tool_count;
      started_at = if int_ltb (pos 0) cfg.started_at then cfg.started_at else p.started_at;
      version = if is_empty cfg.version then p.version else cfg.version;
      leaf_port = if has_leaf_port cfg then cfg.leaf_port else p.leaf_port;
    }
unfolding apply_all from_leaf_port cut same
apply_all-from_leaf_port cfg p l h k = elim (Bool-cases (has_leaf_port cfg)) [
  | inl sent ↦ rw sent (
      apply_all-from_version cfg
        (record p { leaf_port = number_or (itoa cfg.leaf_port) p.leaf_port }) h k
      ∙ ap
          (λ n. record p {
            tool_count = cfg.tool_count;
            started_at = if int_ltb (pos 0) cfg.started_at then cfg.started_at else p.started_at;
            version = if is_empty cfg.version then p.version else cfg.version;
            leaf_port = n;
          })
          (number_or-itoa cfg.leaf_port p.leaf_port l))
  | inr unsent ↦ rw unsent (apply_all-from_version cfg p h k)
]

apply_all-from_role :
    (cfg : DiscoveryConfig) (p : Peer)
    → InRange cfg.leaf_port
    → InRange cfg.tool_count
    → InRange cfg.started_at
    → apply_all (from_role cfg) p ≡ record p {
      tool_count = cfg.tool_count;
      started_at = if int_ltb (pos 0) cfg.started_at then cfg.started_at else p.started_at;
      version = if is_empty cfg.version then p.version else cfg.version;
      leaf_port = if has_leaf_port cfg then cfg.leaf_port else p.leaf_port;
      role = if is_empty cfg.role then p.role else cfg.role;
    }
unfolding apply_all from_role cut same
apply_all-from_role cfg p l h k = elim (Bool-cases (is_empty cfg.role)) [
  | inl empty ↦ rw empty (apply_all-from_leaf_port cfg p l h k)
  | inr present ↦ rw present (apply_all-from_leaf_port cfg (record p { role = cfg.role }) l h k)
]

if-is_empty : (s : Text) → (if is_empty s then [] else s) ≡ s
if-is_empty [] = refl
if-is_empty (c ∷ s) = refl

-- A node that reads the TXT records which another node advertises learns that node's NATS port,
-- role, version and tool count, its start time if positive, and, of a seed, its leaf port if
-- positive, whatever bytes the texts hold.
pub entry_to_peer-txt_records :
    (cfg : DiscoveryConfig) (entry : ServiceEntry)
    → IsSendable cfg
    → entry.text ≡ txt_records cfg
    → entry_to_peer (some entry) ≡ some (as_peer cfg entry)
unfolding entry_to_peer txt_records cut same
entry_to_peer-txt_records cfg entry (h, k, l, m) e = rw e (
    ap some (
      apply_all-from_role cfg
        (record (fresh_peer entry) { port = number_or (itoa cfg.nats_port) entry.port }) k l m
      ∙ λ i. record {
        name = entry.instance_name;
        host = entry.host_name;
        port = number_or-itoa cfg.nats_port entry.port h i;
        leaf_port = if has_leaf_port cfg then cfg.leaf_port else pos 0;
        role = if-is_empty cfg.role i;
        ip = choose_ip entry.addr_ipv4 entry.addr_ipv6;
        version = if-is_empty cfg.version i;
        tool_count = cfg.tool_count;
        started_at = if int_ltb (pos 0) cfg.started_at then cfg.started_at else pos 0;
      }))
