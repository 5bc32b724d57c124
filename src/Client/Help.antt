-- ===== src/Client/Help.antt =====
-- `_print_help` of client.py: what the prompt prints for `help`.
use ai_coding_training.Base.{[], ◌∷◌}
use ai_coding_training.Text.{Text, codes}
use ai_coding_training.Text.Words.{join}

unfoldable pub help_text : Text
unfolding join
help_text = join (b'\n' ∷ []) (
    codes ""
    ∷ codes "=== MQ Commands ==="
    ∷ codes "  Topic/Queue 管理:"
    ∷ codes "    CREATE_TOPIC <name>        创建 Topic"
    ∷ codes "    DELETE_TOPIC <name>        删除 Topic"
    ∷ codes "    LIST_TOPICS                列出所有 Topic"
    ∷ codes "    CREATE_QUEUE <name> [max]  创建 Queue"
    ∷ codes "    DELETE_QUEUE <name>        删除 Queue"
    ∷ codes "    LIST_QUEUES                列出所有 Queue"
    ∷ codes ""
    ∷ codes "  消息生产:"
    ∷ codes "    PUBLISH <topic> <body>     向 Topic 发布消息"
    ∷ codes "    SEND <queue> <body>        向 Queue 发送消息"
    ∷ codes ""
    ∷ codes "  消息消费:"
    ∷ codes "    CONSUME <queue> [TIMEOUT <ms>]  从 Queue 消费（支持 Long Polling）"
    ∷ codes "    SUBSCRIBE <topic>          订阅 Topic"
    ∷ codes "    UNSUBSCRIBE <topic>        取消订阅"
    ∷ codes ""
    ∷ codes "  消费者组:"
    ∷ codes "    CREATE_GROUP <target> <group>  创建消费者组"
    ∷ codes "    DELETE_GROUP <group>       删除消费者组"
    ∷ codes "    CONSUME_GROUP <queue> <group>  以组模式消费"
    ∷ codes "    LEAVE_GROUP <group>        离开消费者组"
    ∷ codes ""
    ∷ codes "  消息确认:"
    ∷ codes "    ACK <msg_id>               确认消息"
    ∷ codes "    NACK <msg_id>              否定确认"
    ∷ codes "    ACK_BATCH <id1> [id2...]  批量确认"
    ∷ codes ""
    ∷ codes "  DLQ:"
    ∷ codes "    REPLAY DLQ <msg_id>        重放死信消息"
    ∷ codes "    REPLAY_ALL DLQ <target>    批量重放"
    ∷ codes ""
    ∷ codes "  Offset:"
    ∷ codes "    SET_OFFSET <topic> <offset>  设置消费位置"
    ∷ codes ""
    ∷ codes "  其他:"
    ∷ codes "    PING                       心跳"
    ∷ codes "    QUIT / exit / q            退出"
    ∷ codes ""
    ∷ [])
