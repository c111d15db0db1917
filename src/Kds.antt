-- ===== src/Kds.antt =====
-- The kitchen display: packages/pos/src/kds-types.ts. Texts that are only shown are numbers; quantities
-- are bigints at scale 4.
pub mod Repository
pub mod Service
pub mod Printing
pub mod Wire
mod Tests
use tridentpos.Prelude.{ℕ, ℤ, Bool, true, false, Option, List}

pub data KdsEstacionType : Type 0 where
  cocina barra : KdsEstacionType

pub data KdsEstacionStatus : Type 0 where
  activa inactiva : KdsEstacionStatus

pub data KdsTicketStatus : Type 0 where
  pendiente en_preparacion listo entregado : KdsTicketStatus

pub data KdsTicketPartidaStatus : Type 0 where
  pendiente en_preparacion listo : KdsTicketPartidaStatus

pub data UrgencyLevel : Type 0 where
  normal alta urgente : UrgencyLevel

pub data PrintJobStatus : Type 0 where
  pending queued printing printed failed : PrintJobStatus

pub data PrinterStatus : Type 0 where
  online offline unknown : PrinterStatus

pub record KdsEstacion : Type 0 where
  pub id : ℕ
  pub name : ℕ
  pub station_type : KdsEstacionType
  pub status : KdsEstacionStatus
  pub created_at : ℕ

pub record ImpresoraRed : Type 0 where
  pub id : ℕ
  pub name : ℕ
  pub host : ℕ
  pub port : ℕ
  pub kds_estacion_id : Option ℕ
  pub status : PrinterStatus
  pub last_seen_at : Option ℕ
  pub created_at : ℕ

pub record Modificador : Type 0 where
  pub modifier_id : ℕ
  pub modifier_name_snapshot : ℕ

pub record KdsTicketPartida : Type 0 where
  pub id : ℕ
  pub kds_ticket_id : ℕ
  pub product_id : ℕ
  pub product_name_snapshot : ℕ
  pub quantity : ℤ
  pub comments : Option ℕ
  pub modifiers : List Modificador
  pub status : KdsTicketPartidaStatus
  pub created_at : ℕ

-- The columns of `kds_tickets`. A print error is `none`, or some text as a number.
pub record KdsTicketRow : Type 0 where
  pub id : ℕ
  pub cuenta_id : ℕ
  pub mesa_reference : ℕ
  pub kds_estacion_id : ℕ
  pub urgency_level : UrgencyLevel
  pub status : KdsTicketStatus
  pub print_status : PrintJobStatus
  pub print_attempts : ℕ
  pub printer_id : Option ℕ
  pub last_print_error : Option ℕ
  pub aggregate_sequence_number : ℕ
  pub created_at : ℕ
  pub updated_at : ℕ
  pub completed_at : Option ℕ
  pub preparation_time_minutes : Option ℕ

pub record KdsTicket : Type 0 where
  pub row : KdsTicketRow
  pub open row use *
  pub partidas : List KdsTicketPartida

-- `ComandaEnviadaACocina`, `OrdenProduccionIniciadaEnKDS` and `OrdenProduccionConfirmadaEnKDS`.
pub data KdsDomainEvent : Type 0 where
  comanda_enviada orden_iniciada :
      (estacion : ℕ) (ticket : KdsTicket) (emitted_at : ℕ) → KdsDomainEvent
  orden_confirmada :
      (estacion orden_produccion_id completed_at tiempo : ℕ) (ticket : KdsTicket) (emitted_at : ℕ)
      → KdsDomainEvent

-- Errors by their codes.
pub data KdsError : Type 0 where
  duplicate_kds_ticket kds_estacion_not_found kds_estacion_inactive empty_comanda : KdsError
  invalid_quantity kds_ticket_not_found kds_estacion_mismatch : KdsError
  invalid_kds_ticket_status invalid_preparation_time invalid_recall_window : KdsError

abbrev pub is_entregado : KdsTicketStatus → Bool
is_entregado KdsTicketStatus.entregado = true
is_entregado _ = false

abbrev pub is_pendiente : KdsTicketStatus → Bool
is_pendiente KdsTicketStatus.pendiente = true
is_pendiente _ = false

abbrev pub is_en_preparacion : KdsTicketStatus → Bool
is_en_preparacion KdsTicketStatus.en_preparacion = true
is_en_preparacion _ = false

abbrev pub is_activa : KdsEstacionStatus → Bool
is_activa activa = true
is_activa inactiva = false
