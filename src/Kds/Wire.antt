-- ===== src/Kds/Wire.antt =====
-- packages/pos/src/kds-wire-mapper.ts: the same data with the quantities as decimal texts.
use tridentpos.Prelude.{ℕ, ℤ, Option, List, Text, map}
use tridentpos.Money
use tridentpos.Money.{is_valid_scale4_range}
use tridentpos.Money.Decimal.{decimal_string_to_scaled, scaled_to_decimal_string}
use tridentpos.Kds.{KdsTicket, KdsTicketRow, KdsTicketPartida, KdsTicketPartidaStatus, Modificador}
use tridentpos.Kds.Service.{EnviarComandaItemInput}

pub record KdsTicketPartidaWireDto : Type 0 where
  pub id : ℕ
  pub kds_ticket_id : ℕ
  pub product_id : ℕ
  pub product_name_snapshot : ℕ
  pub quantity : Text
  pub comments : Option ℕ
  pub modifiers : List Modificador
  pub status : KdsTicketPartidaStatus
  pub created_at : ℕ

pub record KdsTicketWireDto : Type 0 where
  pub row : KdsTicketRow
  pub partidas : List KdsTicketPartidaWireDto

unfoldable pub map_kds_ticket_partida_to_wire : KdsTicketPartida → KdsTicketPartidaWireDto
unfolding scaled_to_decimal_string
map_kds_ticket_partida_to_wire p = record {
  id = p.id;
  kds_ticket_id = p.kds_ticket_id;
  product_id = p.product_id;
  product_name_snapshot = p.product_name_snapshot;
  quantity = scaled_to_decimal_string p.quantity;
  comments = p.comments;
  modifiers = p.modifiers;
  status = p.status;
  created_at = p.created_at;
}

unfoldable pub map_kds_ticket_to_wire : KdsTicket → KdsTicketWireDto
unfolding map_kds_ticket_partida_to_wire
map_kds_ticket_to_wire t = record {
  row = t.row;
  partidas = map map_kds_ticket_partida_to_wire t.partidas;
}

pub record ComandaWireItem : Type 0 where
  pub id : ℕ
  pub product_id : ℕ
  pub product_name_snapshot : ℕ
  pub quantity : Text
  pub comments : Option ℕ
  pub modifiers : Option (List Modificador)

abbrev with_quantity : ComandaWireItem → ℤ → EnviarComandaItemInput
with_quantity item q = record {
  id = item.id;
  product_id = item.product_id;
  product_name_snapshot = item.product_name_snapshot;
  quantity = q;
  comments = item.comments;
  modifiers = item.modifiers;
}

unfoldable pub parse_comanda_wire_item : ComandaWireItem → Money.Result EnviarComandaItemInput
unfolding decimal_string_to_scaled
parse_comanda_wire_item item = elim (decimal_string_to_scaled item.quantity) [
  | Money.ok q ↦ Money.ok (with_quantity item q)
  | Money.err e ↦ Money.err e
]
