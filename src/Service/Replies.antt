-- ===== src/Service/Replies.antt =====
-- The texts that the chat of src/feishu_dify_gateway/service.py answers with.
use feishu_dify_gateway.Base.{Bool, true, false, List, [], ◌∷◌, ◌++◌}
use feishu_dify_gateway.Text.{Text, codes}

-- The text of `/help`.
abbrev pub help : Text
help =
    codes "可用命令：\n"
    ++ (codes "/help 查看帮助\n"
        ++ (codes "/status 查看只读健康状态\n"
            ++ (codes "/alerts 查看当前告警\n"
                ++ (codes "任意消息：派发任务给 Agent(Codex) 执行\n"
                    ++ (codes "/task <描述> 与任意消息等价\n"
                        ++ (codes "/cp status 控制平面状态\n"
                            ++ (codes "/cp approve <id> 批准修复\n"
                                ++ (codes "/cp reject <id> 拒绝修复\n"
                                    ++ (codes "/cp rollback <id> 回滚修复\n"
                                        ++ (codes "/cp pause 暂停控制平面\n"
                                            ++ (codes "/cp resume 恢复控制平面\n"
                                                ++ (codes "/cp promote <candidate_id> 晋升候选经验\n"
                                                    ++ (codes
                                                          "/cp policy <fingerprint> auto|manual|ignore 设置告警策略\n"
                                                        ++ (codes
                                                            "/cp run <fingerprint> 手动策略下执行修复\n"
                                                            ++ (codes
                                                            "/cp ignore <fingerprint> 忽略该告警\n"
                                                            ++ (codes "/cp evidence 查看沉淀证据与候选\n"
                                                            ++ (codes
                                                            "/cp dismiss <candidate_id> 归档候选")))))))))))))))))

-- The text of a `/cp` command that is not known.
abbrev pub usage : Text
usage =
    codes "用法：\n"
    ++ (codes "/cp status\n"
        ++ (codes "/cp approve <id> | reject <id> | rollback <id>\n"
            ++ (codes "/cp pause | resume\n"
                ++ (codes "/cp promote <candidate_id>\n"
                    ++ (codes "/cp policy <fingerprint> auto|manual|ignore\n"
                        ++ (codes "/cp run <fingerprint> | ignore <fingerprint>\n"
                            ++ (codes "/cp evidence\n"
                                ++ (codes "/cp dismiss <candidate_id>\n"
                                    ++ (codes "/task <描述> 派发任务给 Agent 执行")))))))))

-- `'ok' if up else 'down'`
abbrev pub up_or_down : Bool → Text
up_or_down true = codes "ok"
up_or_down false = codes "down"

abbrev pub status_reply : Bool × Bool → Text
status_reply (feishu_ok, prometheus_ok) =
    codes "只读状态：\nFeishu: "
    ++ (up_or_down feishu_ok ++ (codes "\nPrometheus: " ++ up_or_down prometheus_ok))

abbrev pub alert_line : Text × Text → Text
alert_line (name, state) = codes "- " ++ (name ++ (codes ": " ++ state))

-- The lines of the alerts after the first, each after a newline.
unfoldable pub more_lines : List (Text × Text) → Text
more_lines [] = []
more_lines (a ∷ alerts) = codes "\n" ++ (alert_line a ++ more_lines alerts)

unfoldable pub alerts_reply : List (Text × Text) → Text
unfolding more_lines
alerts_reply [] = codes "当前没有可见的 active alert。"
alerts_reply (a ∷ alerts) = codes "当前告警：\n" ++ (alert_line a ++ more_lines alerts)
